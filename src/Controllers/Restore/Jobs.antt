-- ===== src/Controllers/Restore/Jobs.antt =====
-- `createRestoreJob`: the job that restores one instance.
pub mod Feasible
use postgres_cluster_operato.Common.{String, ◌<>◌, pos, false, Option, none, some, List, [], ◌∷◌}
use postgres_cluster_operato.Api.Meta.{new_metadata}
use postgres_cluster_operato.Api.Cluster.{
  PostgresCluster, PostgresInstanceSpec, StorageSpec, DatabaseSpec,
}
use postgres_cluster_operato.Api.Backup.{PostgresBackup}
use postgres_cluster_operato.Api.Restore.{PostgresRestore}
use postgres_cluster_operato.Kube.Pods.{secret_key_ref, claim_volume, Container}
use postgres_cluster_operato.Kube.Objects.{Job}
use postgres_cluster_operato.Kube.Env.{Error, Result, ok, err, panicked}
use postgres_cluster_operato.Kube.Action.{wrap_error}
use postgres_cluster_operato.Postgres.Restore.{build_restore_command, add_backup_volume_to_job}
use postgres_cluster_operato.Controllers.Cluster.Sets.{or_cluster}

-- `return nil, fmt.Errorf("…: %w", err)` where a step of the function fails
abbrev pub or_return {ℓ κ} :
    {A : Type ℓ} {B : Type κ} → String → Result A → (A → Result B) → Result B
or_return context (ok a) k = k a
or_return context (err e) k = err (wrap_error context e)
or_return context panicked k = panicked

abbrev pub restore_job_name : PostgresRestore → PostgresInstanceSpec → String
restore_job_name restore instance = restore.metadata.name <> "-" <> instance.name <> "-restore"

abbrev restore_container : PostgresCluster → String → Container
restore_container cluster cmd = record {
  name = "restore";
  image = "postgres:" <> cluster.spec.postgres_version;
  command = "/bin/sh" ∷ "-c" ∷ [];
  args = cmd ∷ [];
  ports = [];
  env =
      record {
        name = "PGPASSWORD";
        source = secret_key_ref (cluster.metadata.name <> "-credentials") "postgres-password";
      }
      ∷ [];
  volume_mounts =
      record { name = "data"; mount_path = "/var/lib/postgresql/data"; read_only = false } ∷ [];
  resources = record { requests = []; limits = [] };
  liveness_probe = none;
  readiness_probe = none;
}

-- The object before the backup's volume is added.
unfoldable pub restore_job :
    PostgresRestore → PostgresCluster → PostgresBackup → PostgresInstanceSpec → String → Job
restore_job restore cluster backup instance cmd =
    let storage : StorageSpec = or_cluster instance.storage cluster.spec.storage in
    record {
      metadata = new_metadata (restore_job_name restore instance) restore.metadata.namespace (
          ("app", "postgres-restore")
          ∷ ("postgres-restore", restore.metadata.name)
          ∷ ("postgres-instance", instance.name)
          ∷ ("postgres-cluster", cluster.metadata.name)
          ∷ ("postgres-backup", backup.metadata.name)
          ∷ ("database.example.com/restore", "true")
          ∷ []);
      backoff_limit = some (pos 0);
      template = record {
        labels =
            ("app", "postgres-restore")
            ∷ ("postgres-restore", restore.metadata.name)
            ∷ ("postgres-instance", instance.name)
            ∷ [];
        spec = record {
          security_context = none;
          restart_policy = "OnFailure";
          containers = restore_container cluster cmd ∷ [];
          init_containers = [];
          volumes = record { name = "data"; source = claim_volume storage.volume_name } ∷ [];
        };
      };
      status = record {
        active = pos 0;
        failed = pos 0;
        start_time = none;
        completion_time = none;
        conditions = [];
      };
    }

unfoldable pub create_restore_job :
    PostgresRestore → PostgresCluster → PostgresBackup → PostgresInstanceSpec → Result Job
unfolding restore_job
create_restore_job restore cluster backup instance =
    or_return "failed to build restore command"
      (build_restore_command backup restore.spec.options
        (or_cluster instance.database cluster.spec.database))
      λ cmd.
        or_return "failed to add backup volume"
          (add_backup_volume_to_job (restore_job restore cluster backup instance cmd) backup) ok
