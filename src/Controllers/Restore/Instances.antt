-- ===== src/Controllers/Restore/Instances.antt =====
-- `reconcileRestore`: the jobs of the target instances, and the status of the whole.
pub mod Progress
pub mod Survival
pub mod Written
pub mod Once
pub mod Fresh
pub mod Own
use postgres_cluster_operato.Common.{
  ℕ, zero, suc, ◌+◌, String, ◌<>◌, Bool, true, false, Option, none, some, List, [], ◌∷◌, map,
  length, get_elem?, set, ◌==◌, nat_eq, string_eq, if◌then◌else◌,
}
use postgres_cluster_operato.Api.Meta.{namespaced}
use postgres_cluster_operato.Api.Cluster.{PostgresCluster, PostgresInstanceSpec}
use postgres_cluster_operato.Api.Backup.{PostgresBackup}
use postgres_cluster_operato.Api.Restore.{PostgresRestore, InstanceRestoreStatus}
use postgres_cluster_operato.Kube.Objects.{Job}
use postgres_cluster_operato.Kube.Env.{Env, Error, job, postgres_restore}
use postgres_cluster_operato.Kube.Action.{
  Action, ⊤, ◌>>=◌, pure, wrap_error, lift, deref, handle, option, now, get, create, update_status,
  set_controller_reference,
}
use postgres_cluster_operato.Controllers.Restore.Targets.{get_target_instances}
use postgres_cluster_operato.Controllers.Restore.Jobs.{create_restore_job, restore_job_name}
use postgres_cluster_operato.Controllers.Restore.Status.{instance_after_job, overall_status}

-- How a part of `reconcileRestore` ended: the object as it stands in memory, and the error.
pub record Attempt : Type 0 where
  pub restore : PostgresRestore
  pub failure : Option Error

abbrev succeeded : PostgresRestore → Attempt
succeeded restore = record { restore = restore; failure = none }

-- `restore.Status.InstanceStatuses[i] = s`
abbrev put_status : PostgresRestore → ℕ → InstanceRestoreStatus → PostgresRestore
put_status restore i s = record restore {
  status = record (restore.status) { instance_statuses = set restore.status.instance_statuses i s };
}

unfoldable pub pending_status : PostgresRestore → PostgresInstanceSpec → InstanceRestoreStatus
pending_status restore instance = record {
  name = instance.name;
  phase = "Pending";
  message = "";
  job_name = restore_job_name restore instance;
  start_time = none;
  completion_time = none;
}

-- `if err := m; err != nil { return fmt.Errorf("…: %w", err) }`, with the object in memory
abbrev or_stop {ℓ} :
    {A : Type ℓ} → PostgresRestore → String → Action A → (A → Action Attempt) → Action Attempt
or_stop restore context m k =
    handle m (λ e. pure (record { restore = restore; failure = some (wrap_error context e) })) k

abbrev and_then : Attempt → (PostgresRestore → Action Attempt) → Action Attempt
and_then a k = option a.failure (k a.restore) (λ _. pure a)

module _ ⦃env : Env⦄ where
  -- `updateJobStatus` for the job `j` of instance `i`, whose status is `s`. A job that is gone
  -- leaves the status alone.
  unfoldable pub update_job_status :
      PostgresRestore → ℕ → InstanceRestoreStatus → Job → Action Attempt
  unfolding instance_after_job
  update_job_status restore i s j =
      if j.metadata.name == ""
      then pure (succeeded restore)
      else handle (get job (namespaced j.metadata.namespace j.metadata.name))
          (λ e.
            if e.not_found
            then pure (succeeded restore)
            else pure (record {
              restore = restore;
              failure =
                  some
                    (wrap_error "failed to update job status" (wrap_error "failed to get job" e));
            }))
          (λ current. pure (succeeded (put_status restore i (instance_after_job current.status s))))

  -- The branch of a job that does not exist yet.
  unfoldable pub start_job :
      PostgresRestore
      → PostgresCluster
      → PostgresBackup
      → ℕ
      → PostgresInstanceSpec
      → InstanceRestoreStatus
      → Action Attempt
  unfolding update_job_status
  start_job restore cluster backup i instance s =
      or_stop restore "failed to create job spec"
        (lift (create_restore_job restore cluster backup instance))
        λ built.
          or_stop restore "failed to set controller reference"
            (set_controller_reference postgres_restore restore.metadata job built)
            λ owned. or_stop restore "failed to create job" (create job owned) λ _. do
              at ← now
              let started = record s { phase = "Running"; start_time = some at }
              update_job_status (put_status restore i started) i started owned

  -- One round of the loop.
  unfoldable pub restore_instance :
      PostgresRestore → PostgresCluster → PostgresBackup → ℕ → PostgresInstanceSpec → Action Attempt
  unfolding start_job
  restore_instance restore cluster backup i instance = do
    s ← deref (get_elem? restore.status.instance_statuses i)
    if s.phase == "Completed"
        then pure (succeeded restore)
        else handle (get job (namespaced restore.metadata.namespace s.job_name))
            (λ e.
              if e.not_found
              then start_job restore cluster backup i instance s
              else pure (record {
                restore = restore;
                failure = some (wrap_error "failed to check for existing job" e);
              }))
            (λ found. update_job_status restore i s found)

  -- The loop, from index `i` on.
  unfoldable pub restore_instances :
      PostgresRestore
      → PostgresCluster
      → PostgresBackup
      → ℕ
      → List PostgresInstanceSpec
      → Action Attempt
  unfolding restore_instance
  restore_instances restore cluster backup i [] = pure (succeeded restore)
  restore_instances restore cluster backup i (instance ∷ rest) = do
    a ← restore_instance restore cluster backup i instance
    and_then a (λ r. restore_instances r cluster backup (suc i) rest)

  -- The statuses are laid out anew where their number is not that of the targets. The update
  -- answers with the stored object, whose options have no defaults filled in.
  unfoldable pub initialize_statuses : PostgresRestore → List PostgresInstanceSpec → Action Attempt
  unfolding pending_status
  initialize_statuses restore targets =
      if length restore.status.instance_statuses == length targets
      then pure (succeeded restore)
      else let r : PostgresRestore = record restore {
        status = record (restore.status) {
          instance_statuses = map (pending_status restore) targets;
        };
      } in
        or_stop r "failed to initialize instance statuses" (update_status postgres_restore r)
          (λ stored. pure (succeeded stored))

  unfoldable pub update_restore_status : PostgresRestore → Action Attempt
  unfolding overall_status
  update_restore_status restore = do
    s ← overall_status restore.status
    let r = record restore { status = s }
    handle (update_status postgres_restore r) (λ e. pure (record { restore = r; failure = some e }))
        (λ stored. pure (succeeded stored))

  unfoldable pub reconcile_restore :
      PostgresRestore → PostgresCluster → PostgresBackup → Action Attempt
  unfolding initialize_statuses restore_instances update_restore_status
  reconcile_restore restore cluster backup =
      or_stop restore "failed to get target instances" (lift (get_target_instances cluster restore))
        λ targets. do
          a ← initialize_statuses restore targets
          and_then a λ laid_out. do
            b ← restore_instances laid_out cluster backup zero targets
            and_then b update_restore_status
