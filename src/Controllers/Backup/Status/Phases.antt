-- ===== src/Controllers/Backup/Status/Phases.antt =====
-- The phases of a backup.
use postgres_cluster_operato.Kube.Emits.{given}
use postgres_cluster_operato.Api.Cluster.{PostgresCluster, PostgresInstanceSpec}
use postgres_cluster_operato.Api.Meta.{Time}
use postgres_cluster_operato.Api.Backup.{PostgresBackup, PostgresBackupStatus}
use postgres_cluster_operato.Common.{
  ◌≡◌, ◌↔◌, is_some, true, false, pos, ◌≤ℤ◌, arith, Option, String, ◌⊎◌, none, eq_iff,
}
use postgres_cluster_operato.Kube.Objects.{JobStatus, Job}
use postgres_cluster_operato.Controllers.Backup.Status.{
  job_phase, completed, failed, running, JobPhase, backup_status, pending, with_phase, target_name,
  database_status,
}

pub job_phase_iff :
    (s : JobStatus)
    → ((job_phase s ≡ completed) ↔ (is_some s.completion_time ≡ true))
      × ((job_phase s ≡ failed) ↔ ((is_some s.completion_time ≡ false) × (pos 1 ≤ℤ s.failed)))
      × ((job_phase s ≡ running)
          ↔ ((is_some s.completion_time ≡ false) × (s.failed ≤ℤ pos 0) × (pos 1 ≤ℤ s.active)))
unfolding job_phase
job_phase_iff s = ground arith

abbrev name_of : JobPhase → String
name_of completed = "Completed"
name_of failed = "Failed"
name_of running = "Running"
name_of pending = "Pending"

name_of_iff :
    (p : JobPhase)
    → ((name_of p ≡ "Completed") ↔ (p ≡ completed))
      × ((name_of p ≡ "Failed") ↔ (p ≡ failed))
      × ((name_of p ≡ "Running") ↔ (p ≡ running))
name_of_iff completed = ground (arith, eq_iff "Completed" "Failed", eq_iff "Completed" "Running")
name_of_iff failed = ground (arith, eq_iff "Failed" "Completed", eq_iff "Failed" "Running")
name_of_iff running = ground (arith, eq_iff "Running" "Completed", eq_iff "Running" "Failed")
name_of_iff pending =
    ground
      (arith, eq_iff "Pending" "Completed", eq_iff "Pending" "Failed", eq_iff "Pending" "Running")

-- The start time is recorded once.
abbrev pub KeepsStart : Option Time → Option Time → Type 0
KeepsStart old new = (new ≡ old) ⊎ (old ≡ none)

with_phase-name :
    (j : JobStatus) (p : JobPhase) (s : PostgresBackupStatus)
    → ((with_phase j p s).phase ≡ name_of p) × KeepsStart s.start_time (with_phase j p s).start_time
with_phase-name j completed s = ground arith
with_phase-name j failed s = ground arith
with_phase-name j running s = ground arith
with_phase-name j pending s = ground arith

-- The phase of a backup is Completed exactly where its job has a completion time, Failed exactly
-- where it has none and a pod failed, Running exactly where neither holds and a pod is active; a
-- recorded start time stays.
pub backup_status-phase :
    (b : PostgresBackup) (j : Job) (c : PostgresCluster) (i : Option PostgresInstanceSpec)
    → (((backup_status b j c i).phase ≡ "Completed") ↔ (is_some j.status.completion_time ≡ true))
      × (((backup_status b j c i).phase ≡ "Failed")
          ↔ ((is_some j.status.completion_time ≡ false) × (pos 1 ≤ℤ j.status.failed)))
      × (((backup_status b j c i).phase ≡ "Running") ↔ (
          (is_some j.status.completion_time ≡ false)
          × (j.status.failed ≤ℤ pos 0)
          × (pos 1 ≤ℤ j.status.active)))
      × KeepsStart b.status.start_time (backup_status b j c i).start_time
unfolding backup_status
backup_status-phase b j c i =
    given
      (with_phase-name j.status (job_phase j.status) (record (b.status) {
        target_instance = target_name i;
        database = database_status b.spec.include_instance_config c.spec.database i;
      }))
      λ w. rw w.0 (ground (arith, name_of_iff (job_phase j.status), job_phase_iff j.status, w.1))
