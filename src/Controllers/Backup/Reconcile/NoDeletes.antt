-- ===== src/Controllers/Backup/Reconcile/NoDeletes.antt =====
-- What `Reconcile` of a backup may call.
use postgres_cluster_operato.Common.{◌≡◌, Option, none}
use postgres_cluster_operato.Api.Cluster.{PostgresCluster, PostgresInstanceSpec}
use postgres_cluster_operato.Kube.Objects.{Job}
use postgres_cluster_operato.Kube.Resources.NoDeletes.{create_or_update-DeletesNothing}
use postgres_cluster_operato.Api.Meta.{NamespacedName}
use postgres_cluster_operato.Api.Backup.{PostgresBackup}
use postgres_cluster_operato.Controllers.Backup.Reconcile.{
  reconcile_live, reconcile_backup, update_backup_status, report_failure, reconcile_backup_resource,
}
use postgres_cluster_operato.Kube.Env.{Env, History, Error, postgres_backup, ok}
use postgres_cluster_operato.Kube.Emits.{
  emits_rules, Emits, DeletesNothing, Returns, Emits-handle_when, Emits-get, Emits-if, Emits-bind,
  Emits-update, Emits-pure,
}
use postgres_cluster_operato.Kube.Action

ruleset rules = (emits_rules, tt, create_or_update-DeletesNothing)

module _ ⦃env : Env⦄ where
  status-DeletesNothing :
      (b : PostgresBackup) (j : Job) (c : PostgresCluster) (i : Option PostgresInstanceSpec)
      → Emits DeletesNothing (update_backup_status b j c i)
  unfolding update_backup_status
  status-DeletesNothing b j c i = search rules depth 9

  backup-DeletesNothing :
      (b : PostgresBackup) (c : PostgresCluster) → Emits DeletesNothing (reconcile_backup b c)
  unfolding reconcile_backup
  backup-DeletesNothing b c = search (rules, status-DeletesNothing) depth 12

  report-DeletesNothing :
      (b : PostgresBackup) (e : Error) → Emits DeletesNothing (report_failure b e)
  unfolding report_failure
  report-DeletesNothing b e = search rules depth 9

  live-DeletesNothing : (b : PostgresBackup) → Emits DeletesNothing (reconcile_live b)
  unfolding reconcile_live
  live-DeletesNothing b = search (rules, backup-DeletesNothing, report-DeletesNothing) depth 9

  abbrev IsLive : PostgresBackup → Type 0
  IsLive b = b.metadata.deletion_timestamp ≡ none

  get-IsLive :
      (key : NamespacedName)
      → ((h : History) (b : PostgresBackup)
          → env.on_get h postgres_backup key ≡ ok b
          → b.metadata.deletion_timestamp ≡ none)
      → Returns IsLive (Action.get postgres_backup key)
  unfolding Action.get
  get-IsLive key unmarked = record { at = unmarked }

  -- Reconcile of a backup makes no delete call, where the server's answers for it carry no
  -- deletion timestamp.
  reconcile_backup_resource-DeletesNothing :
      (key : NamespacedName)
      → ((h : History) (b : PostgresBackup)
          → env.on_get h postgres_backup key ≡ ok b
          → b.metadata.deletion_timestamp ≡ none)
      → Emits DeletesNothing (reconcile_backup_resource key)
  unfolding reconcile_backup_resource
  reconcile_backup_resource-DeletesNothing key unmarked =
      Emits-handle_when IsLive _ _ _ (get-IsLive key unmarked)
        (Emits-get {P = DeletesNothing} postgres_backup key tt) (λ e. search rules)
        (λ b live. simp live (
          Emits-if _ _ _ (live-DeletesNothing b) (
            Emits-bind _ _ (Emits-update {P = DeletesNothing} postgres_backup _ tt)
              (λ _. Emits-pure _))))
