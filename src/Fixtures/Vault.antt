-- ===== src/Fixtures/Vault.antt =====
-- A server that finds the secrets that were written to it. Nothing is deleted on it.
use postgres_cluster_operato.Fixtures.Server.{same_key_self, same_key}
use postgres_cluster_operato.Kube.Resources.{key_of}
use postgres_cluster_operato.Common.{true, ◌∷◌, if◌then◌else◌, ◌≡◌, [], refl}
use postgres_cluster_operato.Kube.Objects.{Secret}
use postgres_cluster_operato.Api.Meta.{NamespacedName}
use postgres_cluster_operato.Fixtures.World.{world, world-KeepsKey}
use postgres_cluster_operato.Kube.Keys.{KeepsKey}
use postgres_cluster_operato.Kube.Secrets.{KeepsSecrets, WritesNoSecret}
use postgres_cluster_operato.Kube.Env.{Env, History, Result, Kind, err, Obj, Call, ok, secret}

-- The secret that a mutation starts from: the one that is found, or the one that is sent.
abbrev base : Result Secret → Secret → Secret
base (ok x) s = x
base _ s = s

abbrev stored_secret : History → NamespacedName → Result Secret
stored_secret [] key = err (record { message = "not found"; not_found = true })
stored_secret (Call.create_or_update s f ∷ h) key =
    let older = stored_secret h key in
    if same_key (key_of s.metadata) key then ok (f (base older s)) else older
stored_secret (c ∷ h) key = stored_secret h key

abbrev stored_object : History → (k : Kind) → NamespacedName → Result (Obj k)
stored_object h secret key = stored_secret h key
stored_object h k key = world.on_get h k key

abbrev pub vault : Env
vault = record world { on_get = stored_object }

written_is_found :
    (h : History) (s : Secret) (f : Secret → Secret)
    → stored_secret (Call.create_or_update s f ∷ h) (key_of s.metadata)
      ≡ ok (f (base (stored_secret h (key_of s.metadata)) s))
written_is_found h s f = rw (same_key_self (key_of s.metadata)) refl

stored_secret-stays :
    (h : History) (key : NamespacedName) (c : Call) (x : Secret)
    → WritesNoSecret c
    → stored_secret h key ≡ ok x
    → stored_secret (c ∷ h) key ≡ ok x
stored_secret-stays h key (Call.create_or_update s f) x w e = elim w [ ]
stored_secret-stays h key _ x w e = e

pub vault-KeepsSecrets : KeepsSecrets vault
vault-KeepsSecrets = record {
  written = λ h s f p. (_, written_is_found h s f);
  stays = λ h key c x w e. stored_secret-stays h key c x w e;
}

pub vault-KeepsKey : KeepsKey vault
vault-KeepsKey = record { kept = world-KeepsKey.kept }
