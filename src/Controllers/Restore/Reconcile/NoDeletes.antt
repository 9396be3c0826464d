-- ===== src/Controllers/Restore/Reconcile/NoDeletes.antt =====
-- What `Reconcile` of a restore may call.
use postgres_cluster_operato.Kube.Objects.{Job}
use postgres_cluster_operato.Api.Backup.{PostgresBackup}
use postgres_cluster_operato.Controllers.Backup.Status.{
  JobPhase, completed, failed, running, pending,
}
use postgres_cluster_operato.Common.{String, ℕ, List, ◌≡◌, Option, none, ◌∷◌, suc, []}
use postgres_cluster_operato.Api.Cluster.{PostgresCluster, PostgresInstanceSpec}
use postgres_cluster_operato.Api.Restore.{
  PostgresRestore, PostgresRestoreStatus, InstanceRestoreStatus,
}
use postgres_cluster_operato.Controllers.Restore.Reconcile.{
  reconcile_restore_resource, reconcile_pending, handle_error,
}
use postgres_cluster_operato.Api.Meta.{NamespacedName, Time}
use postgres_cluster_operato.Controllers.Restore.Status.{overall_status, completion}
use postgres_cluster_operato.Controllers.Restore.Instances.{
  restore_instances, update_restore_status, update_job_status, reconcile_restore,
  initialize_statuses, restore_instance, start_job,
}
use postgres_cluster_operato.Kube.Emits.{
  emits_rules, Emits, DeletesNothing, Emits-bind, Emits-if, Emits-update_status, Emits-pure,
  Emits-handle_when, Returns, Emits-raise, Emits-handle, Emits-get, Emits-update,
}
use postgres_cluster_operato.Kube.Env.{Env, History, postgres_restore, Error, ok}
use postgres_cluster_operato.Kube.Action

ruleset rules = (emits_rules, tt)

module _ ⦃env : Env⦄ where
  job_status-DeletesNothing :
      (r : PostgresRestore) (i : ℕ) (s : InstanceRestoreStatus) (j : Job)
      → Emits DeletesNothing (update_job_status r i s j)
  unfolding update_job_status
  job_status-DeletesNothing r i s j = search rules depth 9

  start_job-DeletesNothing :
      (r : PostgresRestore) (c : PostgresCluster) (b : PostgresBackup) (n : ℕ)
      (i : PostgresInstanceSpec) (s : InstanceRestoreStatus)
      → Emits DeletesNothing (start_job r c b n i s)
  unfolding start_job
  start_job-DeletesNothing r c b n i s = search (rules, job_status-DeletesNothing) depth 12

  instance-DeletesNothing :
      (r : PostgresRestore) (c : PostgresCluster) (b : PostgresBackup) (n : ℕ)
      (i : PostgresInstanceSpec)
      → Emits DeletesNothing (restore_instance r c b n i)
  unfolding restore_instance
  instance-DeletesNothing r c b n i =
      search (rules, job_status-DeletesNothing, start_job-DeletesNothing) depth 9

  instances-DeletesNothing :
      (r : PostgresRestore) (c : PostgresCluster) (b : PostgresBackup) (n : ℕ)
      (is : List PostgresInstanceSpec)
      → Emits DeletesNothing (restore_instances r c b n is)
  unfolding restore_instances
  instances-DeletesNothing r c b n [] = search rules
  instances-DeletesNothing r c b n (i ∷ is) =
      search
        (
          rules,
          instance-DeletesNothing,
          λ (r : PostgresRestore). instances-DeletesNothing r c b (suc n) is,
        )
        depth 9

  initialize-DeletesNothing :
      (r : PostgresRestore) (is : List PostgresInstanceSpec)
      → Emits DeletesNothing (initialize_statuses r is)
  unfolding initialize_statuses
  initialize-DeletesNothing r is = Emits-if _ _ _ (Emits-pure _) (
      Emits-handle _ _ _ (Emits-update_status {P = DeletesNothing} postgres_restore _ tt)
        (λ e. search rules) (λ s. search rules))

  completion-DeletesNothing :
      (p : JobPhase) (o : Option Time) → Emits DeletesNothing (completion p o)
  unfolding completion
  completion-DeletesNothing completed o = search rules
  completion-DeletesNothing failed o = search rules
  completion-DeletesNothing running o = search rules
  completion-DeletesNothing pending o = search rules

  overall-DeletesNothing : (s : PostgresRestoreStatus) → Emits DeletesNothing (overall_status s)
  unfolding overall_status
  overall-DeletesNothing s = search (rules, completion-DeletesNothing)

  restore_status-DeletesNothing :
      (r : PostgresRestore) → Emits DeletesNothing (update_restore_status r)
  unfolding update_restore_status
  restore_status-DeletesNothing r = search (rules, overall-DeletesNothing) depth 9

  restore-DeletesNothing :
      (r : PostgresRestore) (c : PostgresCluster) (b : PostgresBackup)
      → Emits DeletesNothing (reconcile_restore r c b)
  unfolding reconcile_restore
  restore-DeletesNothing r c b =
      search
        (rules, initialize-DeletesNothing, instances-DeletesNothing, restore_status-DeletesNothing)
        depth 12

  error-DeletesNothing :
      (r : PostgresRestore) (m : String) (e : Error) → Emits DeletesNothing (handle_error r m e)
  unfolding handle_error
  error-DeletesNothing r m e =
      Emits-bind _ _ (Emits-update_status {P = DeletesNothing} postgres_restore _ tt)
        (λ _. Emits-raise _)

  pending-DeletesNothing : (r : PostgresRestore) → Emits DeletesNothing (reconcile_pending r)
  unfolding reconcile_pending
  pending-DeletesNothing r = search (rules, restore-DeletesNothing, error-DeletesNothing) depth 9

  abbrev IsLive : PostgresRestore → Type 0
  IsLive r = r.metadata.deletion_timestamp ≡ none

  get-IsLive :
      (key : NamespacedName)
      → ((h : History) (r : PostgresRestore)
          → env.on_get h postgres_restore key ≡ ok r
          → r.metadata.deletion_timestamp ≡ none)
      → Returns IsLive (Action.get postgres_restore key)
  unfolding Action.get
  get-IsLive key unmarked = record { at = unmarked }

  -- Reconcile of a restore makes no delete call, where the server's answers for it carry no
  -- deletion timestamp.
  reconcile_restore_resource-DeletesNothing :
      (key : NamespacedName)
      → ((h : History) (r : PostgresRestore)
          → env.on_get h postgres_restore key ≡ ok r
          → r.metadata.deletion_timestamp ≡ none)
      → Emits DeletesNothing (reconcile_restore_resource key)
  unfolding reconcile_restore_resource
  reconcile_restore_resource-DeletesNothing key unmarked =
      Emits-handle_when IsLive _ _ _ (get-IsLive key unmarked)
        (Emits-get {P = DeletesNothing} postgres_restore key tt) (λ e. search rules)
        (λ r live. simp live (
          Emits-if _ _ _ (Emits-if _ _ _ (Emits-pure _) (pending-DeletesNothing r)) (
            Emits-bind _ _
              (Emits-handle _ _ _ (Emits-update {P = DeletesNothing} postgres_restore _ tt)
                (λ e. Emits-raise _) (λ a. Emits-pure _))
              (λ _. Emits-pure _))))
