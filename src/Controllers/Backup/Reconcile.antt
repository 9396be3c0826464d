-- ===== src/Controllers/Backup/Reconcile.antt =====
-- `Reconcile`, `reconcileBackup` and `handleDeletion` of a backup.
pub mod Own
pub mod Ends
pub mod Reports
pub mod NoDeletes
pub mod Deletion
use postgres_cluster_operato.Common.{
  String, ◌<>◌, Bool, true, false, Option, none, some, ◌==◌, string_eq, if◌then◌else◌, is_some,
}
use postgres_cluster_operato.Api.Meta.{NamespacedName, namespaced}
use postgres_cluster_operato.Api.Cluster.{PostgresCluster, PostgresInstanceSpec}
use postgres_cluster_operato.Api.Backup.{PostgresBackup}
use postgres_cluster_operato.Kube.Objects.{Job}
use postgres_cluster_operato.Kube.Env.{Env, Error, postgres_cluster, postgres_backup, job}
use postgres_cluster_operato.Kube.Action.{
  Action, ⊤, Requeue, no_requeue, ◌>>=◌, ◌>>◌, pure, raise, lift, handle, option, within,
  ignore_not_found, ignore, when, get, update, update_status, delete, set_controller_reference,
}
use postgres_cluster_operato.Kube.Resources.{create_or_update}
use postgres_cluster_operato.Postgres.Backup.{create_backup_job}
use postgres_cluster_operato.Controllers.Backup.Target.{set_backup_defaults, get_target_instance}
use postgres_cluster_operato.Controllers.Backup.Status.{backup_status}

abbrev pub backup_finalizer : String
backup_finalizer = "database.example.com/postgres-backup"

-- How `reconcileBackup` ended: the object as it stands in memory, and the error, if any.
pub record Attempt : Type 0 where
  pub backup : PostgresBackup
  pub failure : Option Error

module _ ⦃env : Env⦄ where
  -- The status stays changed in memory where the update of it fails.
  unfoldable pub update_backup_status :
      PostgresBackup → Job → PostgresCluster → Option PostgresInstanceSpec → Action Attempt
  unfolding backup_status
  update_backup_status backup built cluster target = do
    current ← get job (namespaced built.metadata.namespace built.metadata.name)
    let changed = record backup { status = backup_status backup current cluster target }
    handle (update_status postgres_backup changed)
        (λ e. pure (record { backup = changed; failure = some e }))
        (λ stored. pure (record { backup = stored; failure = none }))

  unfoldable pub reconcile_backup : PostgresBackup → PostgresCluster → Action Attempt
  unfolding update_backup_status
  reconcile_backup backup cluster = do
    target ←
        within "failed to determine target instance" (lift (get_target_instance backup cluster))
    built ← within "failed to create backup job" (lift (create_backup_job backup cluster target))
    owned ← set_controller_reference postgres_backup backup.metadata job built
    within "failed to create backup job" (create_or_update job owned)
    update_backup_status backup owned cluster target

  abbrev failed_backup : PostgresBackup → String → PostgresBackup
  failed_backup backup message = record backup {
    status = record (backup.status) { phase = "Failed"; message = message };
  }

  -- The error of this update is only logged.
  unfoldable pub report_failure : PostgresBackup → Error → Action Requeue
  report_failure backup e = do
    ignore (
        update_status postgres_backup
          (failed_backup backup ("Failed to reconcile backup: " <> e.message)))
    raise e

  -- The associated job goes if it can be read, and then the finalizer.
  unfoldable pub handle_backup_deletion : PostgresBackup → Action Requeue
  handle_backup_deletion backup = do
    if backup.status.job_name == ""
        then pure {A = ⊤} tt
        else handle (get job (namespaced backup.metadata.namespace backup.status.job_name))
            (λ _. pure tt)
            (λ found.
              ignore_not_found
                (delete job (namespaced found.metadata.namespace found.metadata.name)))
    update postgres_backup
        (record backup { metadata = env.remove_finalizer backup.metadata backup_finalizer })
    pure no_requeue

  -- The part of `Reconcile` below the deletion.
  unfoldable pub reconcile_live : PostgresBackup → Action Requeue
  unfolding report_failure
  reconcile_live backup =
      handle
        (get postgres_cluster (
          namespaced
            (if backup.spec.cluster_ref.namespace == ""
              then backup.metadata.namespace
              else backup.spec.cluster_ref.namespace)
            backup.spec.cluster_ref.name))
        (λ e. do
          update_status postgres_backup (
              failed_backup backup
                ("Failed to get cluster " <> backup.spec.cluster_ref.name <> ": " <> e.message))
          pure no_requeue)
        (λ cluster.
          handle (reconcile_backup (set_backup_defaults backup) cluster)
            (report_failure (set_backup_defaults backup))
            (λ a.
              option a.failure (pure (record { requeue = false; after_minutes = 5 }))
                (report_failure a.backup)))

  unfoldable pub reconcile_backup_resource : NamespacedName → Action Requeue
  unfolding reconcile_live
  reconcile_backup_resource key =
      handle (get postgres_backup key) (λ e. if e.not_found then pure no_requeue else raise e)
        (λ backup.
          if env.contains_finalizer backup.metadata backup_finalizer
          then if is_some backup.metadata.deletion_timestamp
            then handle_backup_deletion backup
            else reconcile_live backup
          else (do
            update postgres_backup
                (record backup { metadata = env.add_finalizer backup.metadata backup_finalizer })
            pure no_requeue))
