-- ===== src/Controllers/Restore/Reconcile.antt =====
-- `Reconcile`, `handleError` and `handleDeletion` of a restore.
pub mod Own
pub mod Reports
pub mod NoDeletes
pub mod Deletion
use postgres_cluster_operato.Common.{
  String, ◌<>◌, Bool, true, false, Option, none, some, List, [], ◌∷◌, ◌==◌, string_eq,
  if◌then◌else◌, is_some,
}
use postgres_cluster_operato.Api.Meta.{NamespacedName, namespaced}
use postgres_cluster_operato.Api.Restore.{PostgresRestore, InstanceRestoreStatus}
use postgres_cluster_operato.Kube.Env.{
  Env, Error, postgres_cluster, postgres_backup, postgres_restore, job,
}
use postgres_cluster_operato.Kube.Action.{
  Action, ⊤, Requeue, no_requeue, ◌>>=◌, ◌>>◌, pure, raise, wrap_error, handle, option, within,
  ignore_not_found, get, update, update_status, delete,
}
use postgres_cluster_operato.Controllers.Restore.Targets.{set_restore_defaults}
use postgres_cluster_operato.Controllers.Restore.Instances.{Attempt, reconcile_restore}

abbrev pub restore_finalizer : String
restore_finalizer = "database.example.com/postgres-restore"

abbrev or_own : String → String → String
or_own namespace own = if namespace == "" then own else namespace

module _ ⦃env : Env⦄ where
  unfoldable pub handle_error : PostgresRestore → String → Error → Action Requeue
  handle_error restore message e =
      update_status postgres_restore (record restore {
        status = record (restore.status) {
          phase = "Failed";
          message = message <> ": " <> e.message;
        };
      })
      >> raise e

  unfoldable pub delete_jobs : PostgresRestore → List InstanceRestoreStatus → Action ⊤
  delete_jobs restore [] = pure tt
  delete_jobs restore (s ∷ rest) = do
    if s.job_name == ""
        then pure {A = ⊤} tt
        else ignore_not_found (delete job (namespaced restore.metadata.namespace s.job_name))
    delete_jobs restore rest

  unfoldable pub handle_restore_deletion : PostgresRestore → Action Requeue
  unfolding delete_jobs
  handle_restore_deletion restore = do
    delete_jobs restore restore.status.instance_statuses
    within "failed to remove finalizer" (
        update postgres_restore
          (record restore { metadata = env.remove_finalizer restore.metadata restore_finalizer }))
    pure no_requeue

  -- The part of `Reconcile` below the test for a completed restore.
  unfoldable pub reconcile_pending : PostgresRestore → Action Requeue
  unfolding handle_error
  reconcile_pending restore =
      handle
        (get postgres_cluster (
          namespaced (or_own restore.spec.target_cluster.namespace restore.metadata.namespace)
            restore.spec.target_cluster.name))
        (handle_error restore "Failed to get referenced PostgresCluster")
        (λ cluster.
          handle
            (get postgres_backup (
              namespaced (or_own restore.spec.backup_ref.namespace restore.metadata.namespace)
                restore.spec.backup_ref.name))
            (handle_error restore "Failed to get referenced PostgresBackup")
            (λ backup. do
              a ← reconcile_restore (set_restore_defaults restore) cluster backup
              option a.failure (pure (record { requeue = false; after_minutes = 5 }))
                  (handle_error a.restore "Failed to reconcile PostgreSQL restore")))

  unfoldable pub reconcile_restore_resource : NamespacedName → Action Requeue
  unfolding handle_restore_deletion reconcile_pending
  reconcile_restore_resource key =
      handle (get postgres_restore key)
        (λ e.
          if e.not_found
          then pure no_requeue
          else raise (wrap_error "failed to get PostgresRestore" e))
        (λ restore.
          if is_some restore.metadata.deletion_timestamp
          then handle_restore_deletion restore
          else if env.contains_finalizer restore.metadata restore_finalizer
          then if restore.status.phase == "Completed"
            then pure no_requeue
            else reconcile_pending restore
          else (do
            within "failed to add finalizer" (
                update postgres_restore (record restore {
                  metadata = env.add_finalizer restore.metadata restore_finalizer;
                }))
            pure (record { requeue = true; after_minutes = 0 })))
