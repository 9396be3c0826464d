-- ===== src/Controllers/Restore/Status.antt =====
-- `updateJobStatus`, `updateRestoreStatus` and `buildConditions`: the phases of a restore.
pub mod Phases
use postgres_cluster_operato.Common.{
  ℕ, suc, String, ◌<>◌, ℤ, pos, ltb, ltb_ℤ, decimal, length, Bool, true, false, Option, none, some,
  List, [], ◌∷◌, ◌==◌, nat_eq, string_eq, if◌then◌else◌, is_some,
}
use postgres_cluster_operato.Api.Meta.{Time, Condition, condition_true, condition_false}
use postgres_cluster_operato.Api.Restore.{
  PostgresRestore, PostgresRestoreStatus, InstanceRestoreStatus,
}
use postgres_cluster_operato.Kube.Objects.{JobCondition, JobStatus}
use postgres_cluster_operato.Kube.Env.{Env}
use postgres_cluster_operato.Kube.Action.{Action, ◌>>=◌, pure, now}
use postgres_cluster_operato.Controllers.Backup.Status.{
  JobPhase, completed, failed, running, pending, job_phase,
}

-- The message of the first condition of type Failed.
abbrev failure_message : List JobCondition → String
failure_message [] = "Restore job failed"
failure_message (c ∷ rest) = if c.type == "Failed" then c.message else failure_message rest

abbrev with_job_phase : JobStatus → JobPhase → InstanceRestoreStatus → InstanceRestoreStatus
with_job_phase job completed s = record s {
  phase = "Completed";
  completion_time = job.completion_time;
  message = "Restore completed successfully";
}
with_job_phase job failed s = record s {
  phase = "Failed";
  message = failure_message job.conditions;
}
with_job_phase job running s = record s {
  phase = "Running";
  message = "Restore in progress";
  start_time = if is_some s.start_time then s.start_time else job.start_time;
}
with_job_phase job pending s = s

-- What `updateJobStatus` makes of the status of an instance, from its job as it is read.
unfoldable pub instance_after_job : JobStatus → InstanceRestoreStatus → InstanceRestoreStatus
unfolding job_phase
instance_after_job job s = with_job_phase job (job_phase job) s

-- The instances in a phase: one of the counters `completed`, `failed` and `running`.
abbrev pub count_phase : String → List InstanceRestoreStatus → ℕ
count_phase phase [] = 0
count_phase phase (s ∷ rest) =
    let n = count_phase phase rest in if s.phase == phase then suc n else n

-- The phase of the restore, by the cases of the `switch`.
unfoldable pub restore_phase : List InstanceRestoreStatus → JobPhase
restore_phase statuses =
    if ltb 0 (count_phase "Failed" statuses)
    then failed
    else if count_phase "Completed" statuses == length statuses
    then completed
    else if ltb 0 (count_phase "Running" statuses)
    then running
    else pending

abbrev pub phase_name : JobPhase → String
phase_name completed = "Completed"
phase_name failed = "Failed"
phase_name running = "Running"
phase_name pending = "Pending"

abbrev restore_message : List InstanceRestoreStatus → JobPhase → String
restore_message statuses failed =
    decimal (pos (count_phase "Failed" statuses))
    <> "/"
    <> decimal (pos (length statuses))
    <> " instances failed"
restore_message statuses completed = "All instances restored successfully"
restore_message statuses running =
    decimal (pos (count_phase "Running" statuses))
    <> "/"
    <> decimal (pos (length statuses))
    <> " instances running"
restore_message statuses pending =
    "Waiting for " <> decimal (pos (length statuses)) <> " instances to start"

-- `buildConditions`, whose `switch` is on the text of the phase.
unfoldable pub build_conditions : String → String → Time → List Condition
build_conditions phase message at =
    let condition = λ (type reason : String).
      let c : Condition = record {
        type = type;
        status = condition_true;
        last_transition_time = at;
        reason = reason;
        message = message;
      } in
      c in
    (if phase == "Completed"
      then condition "Completed" "AllInstancesRestored"
      else if phase == "Failed"
      then condition "Failed" "SomeInstancesFailed"
      else if phase == "Running"
      then condition "Progressing" "RestoreInProgress"
      else record (condition "Progressing" "RestorePending") { status = condition_false })
    ∷ []

module _ ⦃env : Env⦄ where
  -- The time of completion, which one case of the `switch` sets.
  unfoldable pub completion : JobPhase → Option Time → Action (Option Time)
  completion completed old = do at ← now; pure (some at)
  completion failed old = pure old
  completion running old = pure old
  completion pending old = pure old

  -- The status that `updateRestoreStatus` writes.
  unfoldable pub overall_status : PostgresRestoreStatus → Action PostgresRestoreStatus
  unfolding restore_phase build_conditions completion
  overall_status s = do
    let phase = restore_phase s.instance_statuses
    let message = restore_message s.instance_statuses phase
    completed_at ← completion phase s.completion_time
    at ← now
    pure (record s {
      phase = phase_name phase;
      message = message;
      completion_time = completed_at;
      conditions = build_conditions (phase_name phase) message at;
    })
