-- ===== src/Controllers/Backup/Status.antt =====
-- `updateBackupStatus` and `buildBackupConditions`: the status of a backup from that of its job.
pub mod Phases
use postgres_cluster_operato.Common.{
  String, ℤ, pos, ltb_ℤ, Bool, true, false, ◌&&◌, Option, none, some, List, [], ◌∷◌, Dict, map,
  ◌==◌, string_eq, if◌then◌else◌, is_some, is_empty,
}
use postgres_cluster_operato.Api.Meta.{Condition}
use postgres_cluster_operato.Api.Cluster.{PostgresCluster, PostgresInstanceSpec, DatabaseSpec}
use postgres_cluster_operato.Api.Backup.{PostgresBackup, PostgresBackupStatus, DatabaseStatus}
use postgres_cluster_operato.Kube.Objects.{Job, JobCondition, JobStatus}

-- The phase of a backup or restore whose job has this status.
pub data JobPhase : Type 0 where
  completed failed running pending : JobPhase

unfoldable pub job_phase : JobStatus → JobPhase
job_phase s =
    if is_some s.completion_time
    then completed
    else if ltb_ℤ (pos 0) s.failed
    then failed
    else if ltb_ℤ (pos 0) s.active
    then running
    else pending

unfoldable pub build_backup_conditions : List JobCondition → List Condition
build_backup_conditions = map λ c. record {
  type = c.type;
  status = c.status;
  last_transition_time = c.last_transition_time;
  reason = c.reason;
  message = c.message;
}

-- The database of the instance counts where it has a name.
abbrev database_status : Bool → DatabaseSpec → Option PostgresInstanceSpec → DatabaseStatus
database_status with_config database none = record {
  name = database.name;
  source = "cluster";
  config = [];
  exists = true;
}
database_status with_config database (some instance) = record {
  name = elim instance.database [
    | none ↦ database.name
    | some d ↦ if d.name == "" then database.name else d.name
  ];
  source = elim instance.database [
    | none ↦ "cluster"
    | some d ↦ if d.name == "" then "cluster" else "instance"
  ];
  config = if with_config then instance.config else [];
  exists = true;
}

abbrev target_name : Option PostgresInstanceSpec → String
target_name none = "primary"
target_name (some instance) = instance.name

-- The fields that the `switch` on the job's status sets.
abbrev with_phase : JobStatus → JobPhase → PostgresBackupStatus → PostgresBackupStatus
with_phase job completed s = record s {
  phase = "Completed";
  message = "Backup completed successfully";
  completion_time = job.completion_time;
}
with_phase job failed s = record s { phase = "Failed"; message = "Backup job failed" }
with_phase job running s = record s {
  phase = "Running";
  message = "Backup job is running";
  start_time = if is_some s.start_time then s.start_time else job.start_time;
}
with_phase job pending s = record s { phase = "Pending"; message = "Backup job is pending" }

-- The status that is written.
unfoldable pub backup_status :
    PostgresBackup → Job → PostgresCluster → Option PostgresInstanceSpec → PostgresBackupStatus
unfolding job_phase build_backup_conditions
backup_status backup job cluster target =
    let start : PostgresBackupStatus = record (backup.status) {
      target_instance = target_name target;
      database = database_status backup.spec.include_instance_config cluster.spec.database target;
    } in
    record (with_phase job.status (job_phase job.status) start) {
      job_name = job.metadata.name;
      conditions = build_backup_conditions job.status.conditions;
    }
