-- ===== src/Controllers/User/Password/Stored.antt =====
-- That a password which was generated is the one that is read.
use postgres_cluster_operato.Kube.Ensures.{IsSuccess}
use mathlib.Core.Path.{subst, subst⁻¹}
use postgres_cluster_operato.Kube.Emits.{Extends}
use postgres_cluster_operato.Kube.Leaves.{
  Leaves, Leaves-bind, Leaves-within, Leaves-lift, Leaves-pure,
}
use postgres_cluster_operato.Kube.Resources.{key_of}
use postgres_cluster_operato.Kube.Objects.{Secret}
use postgres_cluster_operato.Kube.Keys.{KeepsKey}
use postgres_cluster_operato.Kube.Secrets.{KeepsSecrets, WritesNoSecret, stays-Extends}
use postgres_cluster_operato.Utils.Crypto.{generate_password}
use postgres_cluster_operato.Common.{
  String, ◌<>◌, ◌≡◌, some, none, lookup, insert, refl, ap, sym, ◌∙◌, lookup-insert,
}
use postgres_cluster_operato.Api.Meta.{NamespacedName, namespaced, ObjectMeta}
use postgres_cluster_operato.Controllers.User.Password.{
  rotate_password, get_password_from_secret, read_password, password_length,
}
use postgres_cluster_operato.Kube.Env.{Env, History, secret, ok, Call, postgres_user}
use postgres_cluster_operato.Api.User.{PostgresUser, PasswordSpec}
use postgres_cluster_operato.Kube.Action

abbrev secret_key : PostgresUser → NamespacedName
secret_key u = namespaced u.metadata.namespace (u.metadata.name <> "-password")

module _ ⦃env : Env⦄ where
  -- The secret of the user is on the server and holds the password.
  abbrev Holds : PostgresUser → String → History → Type 0
  Holds u p h =
      (x : Secret) × (env.on_get h secret (secret_key u) ≡ ok x)
      × (lookup "password" x.contents ≡ some p)

  -- What `rotate_password` leaves on the server.
  abbrev Rotated : PostgresUser → PasswordSpec → History → PostgresUser → History → Type 0
  Rotated u spec h u' h' =
      (p : String) × ((generate_password (password_length spec) h).0 ≡ ok p)
      × (u'.spec ≡ u.spec)
      × (u'.metadata ≡ u.metadata)
      × Holds u p h'

  read_lem :
      (u : PostgresUser) (spec : PasswordSpec) (x : Secret) (p : String) (h : History)
      → u.spec.password ≡ some spec
      → spec.secret_ref ≡ none
      → env.on_get h secret (secret_key u) ≡ ok x
      → lookup "password" x.contents ≡ some p
      → (get_password_from_secret u h).0 ≡ ok p
  unfolding get_password_from_secret read_password Action.steps
  read_lem u spec x p h e r g l = simp (e, r, g, l) refl

  held :
      (u : PostgresUser) (p : String) (m : ObjectMeta) (h : History) (x : Secret)
      → key_of m ≡ secret_key u
      → env.on_get h secret (key_of m) ≡ ok x
      → lookup "password" x.contents ≡ some p
      → Holds u p h
  held u p m h x k g l = (x, subst (λ n. env.on_get h secret n ≡ ok x) k g, l)

  written-Holds :
      (u : PostgresUser) (p : String) (s : Secret) (h : History)
      → KeepsSecrets env
      → key_of s.metadata ≡ secret_key u
      → Leaves
          (λ _ h'. Holds u p h')
          h
          (Action.create_or_update_secret s
            (λ s. record s { contents = insert "password" p s.contents }))
  unfolding Action.create_or_update_secret
  written-Holds u p s h keeps k = record {
    at = λ a e.
        let (x, g) = keeps.written h s _ (subst IsSuccess (sym e) tt) in
        held u p s.metadata _ _ k g (lookup-insert "password" "password" p x.contents);
  }

  now-Holds :
      (u : PostgresUser) (p : String) (h : History)
      → KeepsSecrets env
      → Holds u p h
      → Leaves (λ _ h'. Holds u p h') h Action.now
  unfolding Action.now
  now-Holds u p h keeps (x, g, l) = record {
    at = λ a e. (x, keeps.stays h (secret_key u) Call.now x tt g, l);
  }

  rotate_password-Rotated :
      (u : PostgresUser) (spec : PasswordSpec) (h : History)
      → KeepsKey env
      → KeepsSecrets env
      → Leaves (Rotated u spec h) h (rotate_password u spec)
  unfolding rotate_password
  rotate_password-Rotated u spec h keeps secrets =
      Leaves-bind {P = λ p h'. (generate_password (password_length spec) h).0 ≡ ok p} _ _ h
        (Leaves-within _ _ _ h (record { at = λ p e. e }))
        λ p h1 drawn.
          Leaves-bind {P = λ s h'. key_of s.metadata ≡ secret_key u} _ _ h1
            (Leaves-bind {P = λ m h'. key_of m ≡ secret_key u} _ _ h1
              (Leaves-lift _ (λ m e. keeps.kept postgres_user u.metadata _ m e))
              (λ m h2 k. Leaves-pure _ k))
            λ s h2 k.
              Leaves-bind {P = λ _ h'. Holds u p h'} _ _ h2
                (Leaves-within _ _ _ h2 (written-Holds u p s h2 secrets k))
                λ _ h3 o.
                  Leaves-bind {P = λ _ h'. Holds u p h'} _ _ h3 (now-Holds u p h3 secrets o)
                    λ at h4 o'. Leaves-pure _ (p, drawn, refl, refl, o')

  -- On a server that keeps the secrets that are written to it, and where SetControllerReference
  -- keeps names and namespaces, the password that getPasswordFromSecret reads after a rotation
  -- that succeeded, of a user whose password is not in a referenced secret, is the one that the
  -- rotation generated, as long as no call in between writes a secret or deletes an object.
  pub rotate_password-read :
      (u u' : PostgresUser) (spec : PasswordSpec) (h h' : History)
      → KeepsKey env
      → KeepsSecrets env
      → u.spec.password ≡ some spec
      → spec.secret_ref ≡ none
      → (rotate_password u spec h).0 ≡ ok u'
      → Extends WritesNoSecret (rotate_password u spec h).1 h'
      → (p : String) × ((generate_password (password_length spec) h).0 ≡ ok p)
        × ((get_password_from_secret u' h').0 ≡ ok p)
  rotate_password-read u u' spec h h' keeps secrets e r q x =
      let (p, drawn, s, m, (y, g, l)) = (rotate_password-Rotated u spec h keeps secrets).at u' q in
      (
        p,
        drawn,
        read_lem u' spec y p h' (ap (λ s. s.password) s ∙ e) r
            (subst⁻¹
              (λ n. env.on_get h' secret (namespaced n.namespace (n.name <> "-password")) ≡ ok y) m
              (stays-Extends secrets (secret_key u) y x g))
            l,
      )
