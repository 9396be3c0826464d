-- ===== src/Controllers/User/Password.antt =====
-- `reconcilePasswordSecret`, `shouldRotatePassword` and `getPasswordFromSecret`.
pub mod Rotation
pub mod Stored
use postgres_cluster_operato.Common.{
  ℕ, String, ◌<>◌, ℤ, pos, ◌*ℤ◌, sub_ℕ, int64, ltb_ℤ, Bool, true, false, not, Option, none, some,
  List, [], ◌∷◌, lookup, insert, ◌==◌, string_eq, if◌then◌else◌, is_some,
}
use postgres_cluster_operato.Api.Meta.{Time, new_metadata, namespaced}
use postgres_cluster_operato.Api.Selectors.{SecretReference}
use postgres_cluster_operato.Api.User.{PostgresUser, PasswordSpec, PasswordRotationPolicy}
use postgres_cluster_operato.Kube.Objects.{Secret}
use postgres_cluster_operato.Kube.Env.{Env, Error, postgres_user, secret}
use postgres_cluster_operato.Kube.Action.{
  Action, ⊤, ◌>>=◌, ◌>>◌, pure, raise, error, wrap_error, deref, handle, option, within, get, now,
  set_controller_reference, create_or_update_secret,
}
use postgres_cluster_operato.Utils.Crypto.{generate_password}

-- `time.Hour`, in nanoseconds
abbrev pub hour : ℤ
hour = pos 3600000000000

-- `time.Since(last) >= interval`; the product of the source is an int64, which wraps.
unfoldable pub is_due : Time → Time → PasswordRotationPolicy → Bool
is_due at last policy = not (ltb_ℤ (sub_ℕ at last) (int64 (policy.interval *ℤ hour)))

abbrev key_of_ref : SecretReference → String
key_of_ref ref = if ref.key == "" then "password" else ref.key

abbrev pub password_secret : PostgresUser → String → Secret
password_secret user password = record {
  metadata = new_metadata (user.metadata.name <> "-password") user.metadata.namespace (
      ("app.kubernetes.io/name", "postgres-user")
      ∷ ("app.kubernetes.io/instance", user.metadata.name)
      ∷ ("app.kubernetes.io/managed-by", "postgres-operator")
      ∷ []);
  contents = ("password", password) ∷ [];
}

-- The length that is asked for, or 16.
abbrev pub password_length : PasswordSpec → ℤ
password_length spec = if ltb_ℤ (pos 0) spec.length then spec.length else pos 16

module _ ⦃env : Env⦄ where
  -- With no policy that is enabled, only a first password is generated.
  unfoldable pub should_rotate_password : PostgresUser → PasswordSpec → Action Bool
  unfolding is_due
  should_rotate_password user password =
      option password.rotation_policy (pure (not (is_some user.status.last_password_change)))
        (λ policy.
          if policy.enabled
          then option user.status.last_password_change (pure true)
              (λ last. do at ← now; pure (is_due at last policy))
          else pure (not (is_some user.status.last_password_change)))

  -- The branch of a referenced secret.
  unfoldable pub check_secret_ref : PostgresUser → SecretReference → Action ⊤
  check_secret_ref user ref = do
    found ←
        handle (get secret (namespaced user.metadata.namespace ref.name))
          (λ e.
            if e.not_found
            then raise (error ("referenced secret " <> ref.name <> " not found"))
            else raise (wrap_error "failed to get referenced secret" e))
          pure
    option (lookup (key_of_ref ref) found.contents)
        (raise
          (error ("secret " <> ref.name <> " missing required key '" <> key_of_ref ref <> "'")))
        (λ _. pure tt)

  -- The user comes back with the time of the change.
  unfoldable pub rotate_password : PostgresUser → PasswordSpec → Action PostgresUser
  rotate_password user spec = do
    password ← within "failed to generate password" (generate_password (password_length spec))
    built ←
        set_controller_reference postgres_user user.metadata secret (password_secret user password)
    within "failed to create/update password secret" (
        create_or_update_secret built
          (λ s. record s { contents = insert "password" password s.contents }))
    at ← now
    pure (record user { status = record (user.status) { last_password_change = some at } })

  unfoldable pub reconcile_password_secret : PostgresUser → Action PostgresUser
  unfolding check_secret_ref
  reconcile_password_secret user =
      option user.spec.password (raise (error "password configuration is required")) λ spec.
        option spec.secret_ref
          (if spec.generate
            then (do
              due ← should_rotate_password user spec
              if due then rotate_password user spec else pure user)
            else raise (error "password must be either provided via secretRef or generated"))
          (λ ref. check_secret_ref user ref >> pure user)

  unfoldable pub read_password : PostgresUser → String → String → Action String
  read_password user name key = do
    found ← get secret (namespaced user.metadata.namespace name)
    option (lookup key found.contents)
        (raise (error ("password key " <> key <> " not found in secret " <> name))) pure

  unfoldable pub get_password_from_secret : PostgresUser → Action String
  unfolding read_password
  get_password_from_secret user = do
    spec ← deref user.spec.password
    option spec.secret_ref (read_password user (user.metadata.name <> "-password") "password")
        (λ ref. read_password user ref.name (key_of_ref ref))
