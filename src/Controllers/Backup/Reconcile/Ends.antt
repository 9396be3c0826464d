-- ===== src/Controllers/Backup/Reconcile/Ends.antt =====
-- How `Reconcile` of a backup may end: what its last calls are and what they say.
use postgres_cluster_operato.Kube.Resources.{create_or_update}
use postgres_cluster_operato.Kube.Clearing.{IsFailure}
use postgres_cluster_operato.Controllers.Backup.Status.{backup_status}
use postgres_cluster_operato.Kube.Ensures.{IsSuccess}
use postgres_cluster_operato.Postgres.Backup.{create_backup_job}
use postgres_cluster_operato.Controllers.Backup.Target.{get_target_instance, set_backup_defaults}
use postgres_cluster_operato.Kube.Objects.{Job}
use postgres_cluster_operato.Kube.Finishes.{LastCall}
use postgres_cluster_operato.Api.Cluster.{PostgresCluster, PostgresInstanceSpec}
use postgres_cluster_operato.Api.Meta.{NamespacedName, namespaced, ObjectMeta}
use postgres_cluster_operato.Api.Backup.{PostgresBackup}
use postgres_cluster_operato.Kube.Env.{
  Result, Env, Call, ok, History, a_backup, err, Error, postgres_backup, postgres_cluster, panicked,
  job,
}
use postgres_cluster_operato.Common.{
  String, ◌≡◌, Option, if◌then◌else◌, ◌∷◌, ◌⊎◌, ◌<>◌, ◌==◌, string_eq,
}
use postgres_cluster_operato.Kube.Action

-- The cluster that a backup refers to.
abbrev pub cluster_key : PostgresBackup → NamespacedName
cluster_key b =
    namespaced
      (if b.spec.cluster_ref.namespace == ""
        then b.metadata.namespace
        else b.spec.cluster_ref.namespace)
      b.spec.cluster_ref.name

-- The call updates the status of this backup, to the phase Failed with a message.
abbrev pub WritesFailed : PostgresBackup → String → Call → Type 0
WritesFailed b message (Call.update_status (a_backup x)) =
    (x.metadata ≡ b.metadata) × (x.status.phase ≡ "Failed") × (x.status.message ≡ message)
WritesFailed b message _ = ⊥

abbrev pub LastFailed : PostgresBackup → String → History → Type 0
LastFailed b message = LastCall (WritesFailed b message)

module _ (env : Env) (b : PostgresBackup) (h : History) where
  -- The run ends with the lookup of the job of the backup for the cluster that the server answered,
  -- and then with the status that is read off the job that was answered, which was accepted.
  pub data ReadOff : History → Type 0 where
    read_off :
        (c : PostgresCluster) (target : Option PostgresInstanceSpec) (built : Job) (m : ObjectMeta)
        (j : Job) {h1 : History}
        → env.on_get h postgres_cluster (cluster_key b) ≡ ok c
        → get_target_instance (set_backup_defaults b) c ≡ ok target
        → create_backup_job (set_backup_defaults b) c target ≡ ok built
        → env.controller_reference postgres_backup b.metadata built.metadata ≡ ok m
        → env.on_get h1 job (namespaced m.namespace m.name) ≡ ok j
        → IsSuccess (
            env.on_update_status
              (Call.get job (namespaced m.namespace m.name) ∷ h1)
              postgres_backup
              (record (set_backup_defaults b) {
                status = backup_status (set_backup_defaults b) j c target;
              }))
        → ReadOff (
            Call.update_status (
              a_backup (record (set_backup_defaults b) {
                status = backup_status (set_backup_defaults b) j c target;
              }))
            ∷ Call.get job (namespaced m.namespace m.name)
            ∷ h1)

  -- What makes an attempt fail: there is no target instance or no job for it, a job cannot be given
  -- this backup as its owner or be created or updated, its lookup fails, or an update of the status
  -- of this backup is refused.
  pub data Trouble : Type 0 where
    no_target :
        (c : PostgresCluster)
        → env.on_get h postgres_cluster (cluster_key b) ≡ ok c
        → IsFailure (get_target_instance (set_backup_defaults b) c)
        → Trouble
    no_job :
        (c : PostgresCluster) (target : Option PostgresInstanceSpec)
        → env.on_get h postgres_cluster (cluster_key b) ≡ ok c
        → get_target_instance (set_backup_defaults b) c ≡ ok target
        → IsFailure (create_backup_job (set_backup_defaults b) c target)
        → Trouble
    no_owner :
        (m : ObjectMeta)
        → IsFailure (env.controller_reference postgres_backup b.metadata m)
        → Trouble
    not_stored :
        (o : Job) (h1 : History) → IsFailure (create_or_update ⦃env = env⦄ job o h1).0 → Trouble
    not_answered :
        (key : NamespacedName) (h1 : History) → IsFailure (env.on_get h1 job key) → Trouble
    not_accepted :
        (x : PostgresBackup) (h1 : History)
        → x.metadata ≡ b.metadata
        → IsFailure (env.on_update_status h1 postgres_backup x)
        → Trouble

  -- The lookup of the cluster gave an error, and the run ends with the status that says so.
  pub data Unread : History → Type 0 where
    unread :
        (e : Error)
        → env.on_get h postgres_cluster (cluster_key b) ≡ err e
        → Unread (
            Call.update_status (
              a_backup (record b {
                status = record (b.status) {
                  phase = "Failed";
                  message =
                      "Failed to get cluster " <> b.spec.cluster_ref.name <> ": " <> e.message;
                };
              }))
            ∷ Call.get postgres_cluster (cluster_key b)
            ∷ h)

  -- How a run that does not panic ends.
  abbrev pub Reported : Result Action.Requeue → History → Type 0
  Reported (ok r) h' = ((r.after_minutes ≡ 5) × ReadOff h') ⊎ ((r ≡ Action.no_requeue) × Unread h')
  Reported (err e) h' =
      (LastFailed b ("Failed to reconcile backup: " <> e.message) h' × Trouble) ⊎ Unread h'
  Reported panicked h' = Unit
