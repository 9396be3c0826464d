-- ===== src/Kube/Action.antt =====
-- A step of the operator: from the history so far to a result and the longer history. Calls stay
-- made after an error or a panic.
use postgres_cluster_operato.Common.{
  String, ◌<>◌, Bool, true, false, Option, none, some, ◌∷◌, if◌then◌else◌,
}
use postgres_cluster_operato.Common.{ℕ, ℤ, List, Dict}
use postgres_cluster_operato.Api.Meta.{ObjectMeta, NamespacedName, Time}
use postgres_cluster_operato.Api.Backup.{PostgresBackup}
use postgres_cluster_operato.Kube.Pods.{Quantity}
use postgres_cluster_operato.Kube.Objects.{Secret}
use postgres_cluster_operato.Kube.Env.{
  Error, Result, ok, err, panicked, Kind, Obj, as_object, metadata_of, with_metadata, Call, History,
  Env,
}

abbrev pub Action {ℓ} : Type ℓ → Type ℓ
Action A = History → Result A × History

abbrev pub ⊤ : Type 0
⊤ = Unit

module _ {ℓ} {A : Type ℓ} where
  unfoldable pub pure : A → Action A
  pure a h = (ok a, h)

  -- `return err`
  unfoldable pub raise : Error → Action A
  raise e h = (err e, h)

  unfoldable pub lift : Result A → Action A
  lift r h = (r, h)

  -- `*p`, which panics on nil
  unfoldable pub deref : Option A → Action A
  deref none h = (panicked, h)
  deref (some a) h = (ok a, h)

infixl 5 ◌>>=◌ ◌>>◌
unfoldable pub ◌>>=◌ {ℓ κ} : {A : Type ℓ} {B : Type κ} → Action A → (A → Action B) → Action B
◌>>=◌ m f h =
    let (r, h') = m h in elim r [ ok a ↦ f a h' | err e ↦ (err e, h') | panicked ↦ (panicked, h') ]

abbrev pub ◌>>◌ {ℓ κ} : {A : Type ℓ} {B : Type κ} → Action A → Action B → Action B
m >> k = m >>= λ _. k

-- `if err := m; err != nil { … } else { … }`: the error is handed on, a panic is not caught.
unfoldable pub handle {ℓ κ} :
    {A : Type ℓ} {B : Type κ} → Action A → (Error → Action B) → (A → Action B) → Action B
handle m failed done h =
    let (r, h') = m h in
    elim r [ ok a ↦ done a h' | err e ↦ failed e h' | panicked ↦ (panicked, h') ]

-- `if p == nil { m } else { f(*p) }`
unfoldable pub option {ℓ κ} : {A : Type ℓ} {B : Type κ} → Option A → B → (A → B) → B
option none m f = m
option (some a) m f = f a

-- An error that is only logged.
abbrev pub ignore {ℓ} : {A : Type ℓ} → Action A → Action ⊤
ignore m = handle m (λ _. pure tt) (λ _. pure tt)

-- `defer`: the clean-up runs however the rest of the function ends, and its result is dropped.
unfoldable pub finally {ℓ} : {A : Type ℓ} → Action A → Action ⊤ → Action A
finally m clean_up h = let (r, h') = m h in (r, (clean_up h').1)

-- `fmt.Errorf("…")`
abbrev pub error : String → Error
error message = record { message = message; not_found = false }

-- `fmt.Errorf("…: %w", err)`
abbrev pub wrap_error : String → Error → Error
wrap_error context e = record e { message = context <> ": " <> e.message }

-- `if err := m; err != nil { return fmt.Errorf("…: %w", err) }`
abbrev pub within {ℓ} : {A : Type ℓ} → String → Action A → Action A
within context m = handle m (λ e. raise (wrap_error context e)) pure

-- `if cond { m }`
abbrev pub when : Bool → Action ⊤ → Action ⊤
when true m = m
when false m = pure tt

-- `ctrl.Result`, the delay in minutes
pub record Requeue : Type 0 where
  pub requeue : Bool
  pub after_minutes : ℕ

-- `ctrl.Result{}`
abbrev pub no_requeue : Requeue
no_requeue = record { requeue = false; after_minutes = 0 }

module _ ⦃env : Env⦄ where
  unfoldable pub get : (k : Kind) → NamespacedName → Action (Obj k)
  get k key h = (env.on_get h k key, Call.get k key ∷ h)

  unfoldable pub create : (k : Kind) → Obj k → Action ⊤
  create k o h = (env.on_create h (as_object k o), Call.create (as_object k o) ∷ h)

  unfoldable pub update : (k : Kind) → Obj k → Action (Obj k)
  update k o h = (env.on_update h k o, Call.update (as_object k o) ∷ h)

  -- `r.Status().Update`
  unfoldable pub update_status : (k : Kind) → Obj k → Action (Obj k)
  update_status k o h = (env.on_update_status h k o, Call.update_status (as_object k o) ∷ h)

  unfoldable pub delete : Kind → NamespacedName → Action ⊤
  delete k key h = (env.on_delete h k key, Call.delete k key ∷ h)

  unfoldable pub create_or_update_secret : Secret → (Secret → Secret) → Action ⊤
  create_or_update_secret o mutate h =
      (env.on_create_or_update h o mutate, Call.create_or_update o mutate ∷ h)

  unfoldable pub list_backups : String → Dict String → Action (List PostgresBackup)
  list_backups namespace labels h =
      (env.on_list_backups h namespace labels, Call.list_backups namespace labels ∷ h)

  unfoldable pub now : Action Time
  now h = (ok (env.on_now h), Call.now ∷ h)

  unfoldable pub rand_int : ℕ → Action ℕ
  rand_int bound h = (env.on_rand_int h bound, Call.rand_int bound ∷ h)

  -- `client.IgnoreNotFound(err) != nil`
  abbrev pub ignore_not_found : Action ⊤ → Action ⊤
  ignore_not_found m = handle m (λ e. if e.not_found then pure tt else raise e) pure

  -- `controllerutil.SetControllerReference(owner, object, r.Scheme)`
  abbrev pub set_controller_reference : Kind → ObjectMeta → (k : Kind) → Obj k → Action (Obj k)
  set_controller_reference owner_kind owner k o =
      lift (env.controller_reference owner_kind owner (metadata_of k o)) >>= λ m.
      pure (with_metadata k o m)

  -- `resource.MustParse`
  abbrev pub must_parse : String → Action Quantity
  must_parse text = handle (lift (env.parse_quantity text)) (λ _. lift panicked) pure

  unfoldable pub sql_open : String → Action ⊤
  sql_open conn h = (env.on_sql_open h conn, Call.sql_open conn ∷ h)

  unfoldable pub sql_ping : String → Action ⊤
  sql_ping conn h = (env.on_sql_ping h conn, Call.sql_ping conn ∷ h)

  unfoldable pub sql_close : String → Action ⊤
  sql_close conn h = (ok tt, Call.sql_close conn ∷ h)

  unfoldable pub sql_exec : String → String → List String → Action ⊤
  sql_exec conn query args h =
      (env.on_sql_exec h conn query args, Call.sql_exec conn query args ∷ h)

  unfoldable pub query_bool : String → String → List String → Action Bool
  query_bool conn query args h =
      (env.on_query_bool h conn query args, Call.sql_query conn query args ∷ h)

  unfoldable pub query_int : String → String → List String → Action ℤ
  query_int conn query args h =
      (env.on_query_int h conn query args, Call.sql_query conn query args ∷ h)

  unfoldable pub query_text : String → String → List String → Action String
  query_text conn query args h =
      (env.on_query_text h conn query args, Call.sql_query conn query args ∷ h)

  -- Opens every step at once, for the proofs that run an action.
  unfoldable pub steps : ⊤
  unfolding pure raise lift deref ◌>>=◌ handle finally option get create update update_status delete
      create_or_update_secret list_backups now rand_int sql_open sql_ping sql_close sql_exec
      query_bool query_int query_text
  steps = tt
