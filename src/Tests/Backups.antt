-- ===== src/Tests/Backups.antt =====
-- The theorems on backups, applied.
use postgres_cluster_operato.Controllers.Backup.Reconcile.Ends.{Reported}
use postgres_cluster_operato.Postgres.Backup.Compression.{command_of-compression}
use postgres_cluster_operato.Controllers.Backup.Reconcile.Reports.{reconcile_live-Reported}
use postgres_cluster_operato.Controllers.Backup.Reconcile.Deletion.{
  Dismantles, handle_backup_deletion-Dismantles,
}
use postgres_cluster_operato.Postgres.Backup.Names.{job_name_of-bound}
use postgres_cluster_operato.Controllers.Backup.Target.Search.{
  Picked, wanted, NoneFound, get_target_instance-Outcome,
}
use postgres_cluster_operato.Controllers.Backup.Status.Phases.{KeepsStart, backup_status-phase}
use postgres_cluster_operato.Postgres.Backup.{job_name_of, command_of}
use Prim.Native.String.{len}
use text.Mathlib.TextBridge.{IsPrefix}
use postgres_cluster_operato.Kube.Action.{⊤}
use mathlib.Core.Path.{subst}
use postgres_cluster_operato.Controllers.Backup.Reconcile.Own.{
  IsAsked, RunsBackup, reconcile_backup_resource-RunsBackup,
}
use postgres_cluster_operato.Fixtures.World.{world-KeepsKey, world-MarksOnly}
use postgres_cluster_operato.Api.Meta.{namespaced}
use postgres_cluster_operato.Fixtures.World.{world}
use postgres_cluster_operato.Controllers.Backup.Reconcile.{
  reconcile_backup_resource, handle_backup_deletion, reconcile_live,
}
use postgres_cluster_operato.Controllers.Backup.Target.{set_backup_defaults, get_target_instance}
use postgres_cluster_operato.Api.Backup.{PostgresBackup}
use postgres_cluster_operato.Fixtures.{nightly, demo, finished_job, primary}
use postgres_cluster_operato.Controllers.Backup.Status.{backup_status}
use postgres_cluster_operato.Kube.Env.{History, postgres_backup, ok}
use postgres_cluster_operato.Kube.Outcome.{Outcome}
use postgres_cluster_operato.Common.{
  pos, ◌≤ℤ◌, some, ◌≡◌, false, ◌↔◌, is_some, true, string_eq, refl, ◌≤◌, ◌<>◌, [], String,
  get_elem?, ◌≢◌, decimal, arith,
}
use postgres_cluster_operato.Kube.Emits.{Emits}

nightly_IsAsked :
    (h : History) (b : PostgresBackup)
    → world.on_get h postgres_backup (namespaced "prod" "nightly") ≡ ok b
    → IsAsked ⦃env = world⦄ (namespaced "prod" "nightly") b
nightly_IsAsked h b e =
    subst (Outcome (IsAsked ⦃env = world⦄ (namespaced "prod" "nightly")) ⊤) e (refl, refl)

reconcile_backup_resource-RunsBackup_example :
    Emits
      (RunsBackup (namespaced "prod" "nightly"))
      (reconcile_backup_resource ⦃env = world⦄ (namespaced "prod" "nightly"))
reconcile_backup_resource-RunsBackup_example =
    reconcile_backup_resource-RunsBackup ⦃env = world⦄ (namespaced "prod" "nightly") world-KeepsKey
      world-MarksOnly nightly_IsAsked

get_target_instance-Outcome_example :
    Outcome
      (Picked demo.spec.instances (wanted nightly))
      (NoneFound demo.spec.instances (wanted nightly))
      (get_target_instance nightly demo)
get_target_instance-Outcome_example = get_target_instance-Outcome nightly demo

-- With its defaults the backup is physical and has the compression 1.
command_of-compression_example :
    (a : String) × (get_elem? (command_of (set_backup_defaults nightly) demo (some primary)).1 6
      ≡ some a)
    × (a ≢ "--compress=" <> decimal (pos 1))
unfolding set_backup_defaults
command_of-compression_example =
    command_of-compression (set_backup_defaults nightly) demo (some primary) 1 refl refl
      (omega arith)

backup_status-phase_example :
    (((backup_status nightly finished_job demo (some primary)).phase ≡ "Completed")
      ↔ (is_some finished_job.status.completion_time ≡ true))
    × (((backup_status nightly finished_job demo (some primary)).phase ≡ "Failed") ↔ (
        (is_some finished_job.status.completion_time ≡ false)
        × (pos 1 ≤ℤ finished_job.status.failed)))
    × (((backup_status nightly finished_job demo (some primary)).phase ≡ "Running") ↔ (
        (is_some finished_job.status.completion_time ≡ false)
        × (finished_job.status.failed ≤ℤ pos 0)
        × (pos 1 ≤ℤ finished_job.status.active)))
    × KeepsStart nightly.status.start_time
        (backup_status nightly finished_job demo (some primary)).start_time
backup_status-phase_example = backup_status-phase nightly finished_job demo (some primary)

job_name_of-bound_example :
    (len (job_name_of "nightly-of-the-database-of-the-cluster-that-is-backed-up-every-night") ≤ 63)
    × IsPrefix
        (job_name_of "nightly-of-the-database-of-the-cluster-that-is-backed-up-every-night")
        ("nightly-of-the-database-of-the-cluster-that-is-backed-up-every-night" <> "-job")
job_name_of-bound_example =
    job_name_of-bound "nightly-of-the-database-of-the-cluster-that-is-backed-up-every-night"

-- The nightly backup, whose job has been made.
abbrev started : PostgresBackup
started = record nightly { status = record (nightly.status) { job_name = "nightly-job" } }

handle_backup_deletion-Dismantles_example :
    Dismantles ⦃env = world⦄ started [] (handle_backup_deletion ⦃env = world⦄ started [])
handle_backup_deletion-Dismantles_example =
    handle_backup_deletion-Dismantles ⦃env = world⦄ started []

reconcile_live-Reported_example :
    Reported world nightly []
      (reconcile_live ⦃env = world⦄ nightly []).0
      (reconcile_live ⦃env = world⦄ nightly []).1
reconcile_live-Reported_example = reconcile_live-Reported ⦃env = world⦄ nightly []
