-- ===== src/Controllers/Restore/Reconcile/Own.antt =====
-- What `Reconcile` of a restore writes: the restore and its jobs.
use postgres_cluster_operato.Kube.Emits.{
  Returns, Emits, Emits-bind, Emits-handle_when, Emits-handle, Emits-update_status, Emits-get,
  Emits-raise, Emits-if, Emits-pure, Emits-bind_when, Emits-update, Emits-option,
}
use postgres_cluster_operato.Controllers.Restore.Targets.{set_restore_defaults}
use postgres_cluster_operato.Kube.Keys.{KeepsKey, MarksOnly, EchoesKey}
use postgres_cluster_operato.Controllers.Restore.Instances.Own.{
  RunsRestore, restore-HasKey, restore-Own,
}
use postgres_cluster_operato.Common.{String, ◌≡◌, none, ◌∙◌}
use postgres_cluster_operato.Kube.Resources.{key_of}
use postgres_cluster_operato.Api.Restore.{PostgresRestore}
use postgres_cluster_operato.Controllers.Restore.Reconcile.{
  handle_error, reconcile_pending, reconcile_restore_resource, restore_finalizer,
}
use postgres_cluster_operato.Controllers.Restore.Instances.{Attempt}
use postgres_cluster_operato.Api.Meta.{NamespacedName}
use postgres_cluster_operato.Kube.Env.{
  Env, Call, History, postgres_restore, Error, ok, postgres_cluster, postgres_backup,
}
use postgres_cluster_operato.Kube.Action

module _ ⦃env : Env⦄ (key : NamespacedName) where
  abbrev Own : Call → Type 0
  Own = RunsRestore key

  abbrev HasKey : Attempt → Type 0
  HasKey a = key_of a.restore.metadata ≡ key

  error-Own :
      (r : PostgresRestore) (m : String) (e : Error)
      → key_of r.metadata ≡ key
      → Emits Own (handle_error r m e)
  unfolding handle_error
  error-Own r m e k =
      Emits-bind _ _ (Emits-update_status {P = Own} postgres_restore _ k) (λ _. Emits-raise _)

  pending-Own :
      (r : PostgresRestore)
      → KeepsKey env
      → EchoesKey env
      → key_of r.metadata ≡ key
      → Emits Own (reconcile_pending r)
  unfolding reconcile_pending set_restore_defaults
  pending-Own r keeps echoes k =
      Emits-handle _ _ _ (Emits-get {P = Own} postgres_cluster _ tt) (λ e. error-Own r _ e k)
        (λ c.
          Emits-handle _ _ _ (Emits-get {P = Own} postgres_backup _ tt) (λ e. error-Own r _ e k)
            (λ b.
              Emits-bind_when HasKey _ _ (restore-HasKey key (set_restore_defaults r) c b echoes k)
                (restore-Own key (set_restore_defaults r) c b keeps echoes k)
                (λ a ka.
                  Emits-option a.failure _ _ (Emits-pure _) (λ e. error-Own a.restore _ e ka))))

  abbrev pub IsAsked : PostgresRestore → Type 0
  IsAsked r = (r.metadata.deletion_timestamp ≡ none) × (key_of r.metadata ≡ key)

  get-IsAsked :
      ((h : History) (r : PostgresRestore) → env.on_get h postgres_restore key ≡ ok r → IsAsked r)
      → Returns IsAsked (Action.get postgres_restore key)
  unfolding Action.get
  get-IsAsked asked = record { at = asked }

  -- Reconcile of a restore, where the server's answers for it have its name and its namespace and
  -- no deletion timestamp, and where AddFinalizer, SetControllerReference and the answers to
  -- status updates keep names and namespaces, creates only jobs that bear the restore's name in
  -- the restore's own namespace, updates only the restore itself and its status, deletes nothing
  -- and executes nothing on a database.
  pub reconcile_restore_resource-RunsRestore :
      KeepsKey env
      → MarksOnly env
      → EchoesKey env
      → ((h : History) (r : PostgresRestore) → env.on_get h postgres_restore key ≡ ok r → IsAsked r)
      → Emits (RunsRestore key) (reconcile_restore_resource key)
  unfolding reconcile_restore_resource
  reconcile_restore_resource-RunsRestore keeps marks echoes asked =
      Emits-handle_when IsAsked _ _ _ (get-IsAsked asked)
        (Emits-get {P = Own} postgres_restore key tt)
        (λ e. Emits-if _ _ _ (Emits-pure _) (Emits-raise _))
        (λ r (live, named). simp live (
          Emits-if _ _ _ (Emits-if _ _ _ (Emits-pure _) (pending-Own r keeps echoes named)) (
            Emits-bind _ _
              (Emits-handle _ _ _
                (Emits-update {P = Own} postgres_restore _
                  (marks.kept r.metadata restore_finalizer ∙ named))
                (λ e. Emits-raise _) (λ a. Emits-pure _))
              (λ _. Emits-pure _))))
