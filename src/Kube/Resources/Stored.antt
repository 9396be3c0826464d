-- ===== src/Kube/Resources/Stored.antt =====
-- What `CreateOrUpdate` leaves of a secret or a config map that is stored.
-- The calls of `CreateOrUpdate` on a secret, by the answer to its first.
use mathlib.Core.Path.{subst⁻¹}
use postgres_cluster_operato.Kube.Clearing.{last_call}
use postgres_cluster_operato.Common.{Bool, if◌then◌else◌, ◌≡◌, true, false, ◌∷◌, refl}
use postgres_cluster_operato.Kube.Resources.{create_or_update, key_of, merged, preserve}
use postgres_cluster_operato.Kube.Env.{
  Env, History, Result, Error, Kind, Obj, ok, Call, a_config_map, a_secret, as_object, secret, err,
  config_map, panicked,
}
use postgres_cluster_operato.Kube.Objects.{Secret, ConfigMap}
use postgres_cluster_operato.Kube.Action

abbrev pub SecretWritten : Secret → History → Result Secret → History → Type 0
SecretWritten o h (ok current) h' =
    h'
    ≡ Call.update (
        a_secret (record {
          metadata = record (o.metadata) { resource_version = current.metadata.resource_version };
          contents = current.contents;
        }))
      ∷ Call.get secret (key_of o.metadata)
      ∷ h
SecretWritten o h (err e) h' = h' ≡ (
    if e.not_found
    then Call.create (a_secret o) ∷ Call.get secret (key_of o.metadata) ∷ h
    else Call.get secret (key_of o.metadata) ∷ h)
SecretWritten o h panicked h' = h' ≡ Call.get secret (key_of o.metadata) ∷ h

-- The same for a config map.
abbrev pub ConfigWritten : ConfigMap → History → Result ConfigMap → History → Type 0
ConfigWritten o h (ok current) h' =
    h'
    ≡ Call.update (
        a_config_map (record {
          metadata = record (o.metadata) { resource_version = current.metadata.resource_version };
          contents = current.contents;
        }))
      ∷ Call.get config_map (key_of o.metadata)
      ∷ h
ConfigWritten o h (err e) h' = h' ≡ (
    if e.not_found
    then Call.create (a_config_map o) ∷ Call.get config_map (key_of o.metadata) ∷ h
    else Call.get config_map (key_of o.metadata) ∷ h)
ConfigWritten o h panicked h' = h' ≡ Call.get config_map (key_of o.metadata) ∷ h

-- A failure by the kind of its error.
failed_at :
    (missing : Bool) (e : Error) (m : Action.Action Action.⊤) (h : History)
    → ((if missing then m else Action.raise e) h).1 ≡ (if missing then (m h).1 else h)
unfolding Action.raise
failed_at true e m h = refl
failed_at false e m h = refl

module _ ⦃env : Env⦄ where
  answered_at :
      (k : Kind) (o : Obj k) (h : History) (r : Result (Obj k))
      → (Action.handle
          (Action.lift r)
          (λ e. if e.not_found then Action.create k o else Action.raise e)
          (λ current.
            Action.◌>>◌ (Action.update k (merged k o current)) (Action.pure {A = Action.⊤} tt))
          h).1
        ≡ elim r [
          | ok current ↦ Call.update (as_object k (merged k o current)) ∷ h
          | err e ↦ if e.not_found then Call.create (as_object k o) ∷ h else h
          | panicked ↦ h
        ]
  unfolding Action.handle Action.lift Action.create Action.update
  answered_at k o h (ok current) = last_call (Action.update k (merged k o current)) tt h
  answered_at k o h (err e) = failed_at e.not_found e (Action.create k o) h
  answered_at k o h panicked = refl

  secret_cases :
      (o : Secret) (h : History) (r : Result Secret)
      → SecretWritten o h r (elim r [
        | ok current ↦
            Call.update (a_secret (merged secret o current))
            ∷ Call.get secret (key_of o.metadata)
            ∷ h
        | err e ↦
            if e.not_found
            then Call.create (a_secret o) ∷ Call.get secret (key_of o.metadata) ∷ h
            else Call.get secret (key_of o.metadata) ∷ h
        | panicked ↦ Call.get secret (key_of o.metadata) ∷ h
      ])
  unfolding merged preserve
  secret_cases o h (ok current) = refl
  secret_cases o h (err e) = refl
  secret_cases o h panicked = refl

  config_cases :
      (o : ConfigMap) (h : History) (r : Result ConfigMap)
      → ConfigWritten o h r (elim r [
        | ok current ↦
            Call.update (a_config_map (merged config_map o current))
            ∷ Call.get config_map (key_of o.metadata)
            ∷ h
        | err e ↦
            if e.not_found
            then Call.create (a_config_map o) ∷ Call.get config_map (key_of o.metadata) ∷ h
            else Call.get config_map (key_of o.metadata) ∷ h
        | panicked ↦ Call.get config_map (key_of o.metadata) ∷ h
      ])
  unfolding merged preserve
  config_cases o h (ok current) = refl
  config_cases o h (err e) = refl
  config_cases o h panicked = refl

  -- CreateOrUpdate on a secret or a config map gets it, creates it where it is not found, updates
  -- it at the version that was read with the contents that are stored, and writes nothing after
  -- any other answer.
  pub create_or_update-Written :
      (s : Secret) (c : ConfigMap) (h : History)
      → SecretWritten s h (env.on_get h secret (key_of s.metadata)) (create_or_update secret s h).1
        × ConfigWritten c h
            (env.on_get h config_map (key_of c.metadata))
            (create_or_update config_map c h).1
  unfolding create_or_update Action.get Action.handle Action.lift
  create_or_update-Written s c h = (
    subst⁻¹ (SecretWritten s h _) (answered_at secret s _ (env.on_get h secret (key_of s.metadata)))
        (secret_cases s h _),
    subst⁻¹ (ConfigWritten c h _)
        (answered_at config_map c _ (env.on_get h config_map (key_of c.metadata)))
        (config_cases c h _),
  )
