-- ===== src/Kube/Secrets.antt =====
-- A server that keeps the secrets that are written to it.
use postgres_cluster_operato.Kube.Resources.{key_of}
use postgres_cluster_operato.Common.{◌∷◌, ◌≡◌}
use postgres_cluster_operato.Kube.Emits.{Extends, more, same}
use postgres_cluster_operato.Kube.Ensures.{IsSuccess}
use postgres_cluster_operato.Kube.Objects.{Secret}
use postgres_cluster_operato.Api.Meta.{NamespacedName}
use postgres_cluster_operato.Kube.Env.{Call, Env, a_secret, History, secret, ok}

-- A call that writes no secret.
abbrev pub WritesNoSecret : Call → Type 0
WritesNoSecret (Call.create (a_secret s)) = ⊥
WritesNoSecret (Call.update (a_secret s)) = ⊥
WritesNoSecret (Call.delete k key) = ⊥
WritesNoSecret (Call.create_or_update s f) = ⊥
WritesNoSecret _ = Unit

-- A secret that controllerutil.CreateOrUpdate wrote is found as the mutation left it, and a secret
-- that is found stays as it is while no secret is written and nothing is deleted.
pub record KeepsSecrets (env : Env) : Type 0 where
  pub written :
      (h : History) (s : Secret) (f : Secret → Secret)
      → IsSuccess (env.on_create_or_update h s f)
      → (x : Secret) × (env.on_get (Call.create_or_update s f ∷ h) secret (key_of s.metadata)
          ≡ ok (f x))
  pub stays :
      (h : History) (key : NamespacedName) (c : Call) (x : Secret)
      → WritesNoSecret c
      → env.on_get h secret key ≡ ok x
      → env.on_get (c ∷ h) secret key ≡ ok x

module _ {env : Env} (keeps : KeepsSecrets env) where
  pub stays-Extends :
      (key : NamespacedName) (x : Secret) {h h' : History}
      → Extends WritesNoSecret h h'
      → env.on_get h secret key ≡ ok x
      → env.on_get h' secret key ≡ ok x
  stays-Extends key x same e = e
  stays-Extends key x (more c w r) e = keeps.stays _ key c x w (stays-Extends key x r e)
