-- ===== src/Postgres/Backup.antt =====
-- internal/postgres/backup.go: the job that takes a backup, and the listing and deletion of backups.
pub mod Names
pub mod Compression
use Prim.Native.String.{len, slice}
use postgres_cluster_operato.Common.{
  ℕ, String, ◌<>◌, ℤ, pos, ltb, ltb_ℤ, decimal, string_of_rune, Bool, true, false, ◌&&◌, not,
  Option, none, some, List, [], ◌∷◌, ◌++◌, Dict, value, insert, ◌==◌, string_eq, if◌then◌else◌,
}
use postgres_cluster_operato.Api.Meta.{ObjectMeta, new_metadata, namespaced}
use postgres_cluster_operato.Api.Cluster.{PostgresCluster, PostgresInstanceSpec, DatabaseSpec}
use postgres_cluster_operato.Api.Backup.{PostgresBackup}
use postgres_cluster_operato.Kube.Pods.{
  EnvVar, text, secret_key_ref, VolumeMount, claim_volume, Container, ContainerResources,
}
use postgres_cluster_operato.Kube.Objects.{Job}
use postgres_cluster_operato.Kube.Env.{Env, Error, Result, ok, err, postgres_backup}
use postgres_cluster_operato.Kube.Action.{
  Action, ⊤, ◌>>=◌, ◌>>◌, pure, within, error, get, delete, list_backups,
}

-- A job name of 63 bytes at most. Resource names are ASCII, so no character is cut.
unfoldable pub job_name_of : String → String
job_name_of backup_name =
    let name : String = backup_name <> "-job" in if ltb 63 (len name) then slice name 0 63 else name

-- The database of the instance, where it names one.
abbrev instance_database : Option PostgresInstanceSpec → Option DatabaseSpec
instance_database none = none
instance_database (some instance) = instance.database

abbrev database_name_of : String → Option DatabaseSpec → String
database_name_of default none = default
database_name_of default (some database) = if database.name == "" then default else database.name

abbrev target_host_of : PostgresCluster → Option PostgresInstanceSpec → String
target_host_of cluster none = cluster.status.current_primary
target_host_of cluster (some instance) =
    if instance.name == ""
    then cluster.status.current_primary
    else cluster.metadata.name <> "-" <> instance.name

-- The loop over `instance.Config`.
abbrev config_args : Dict String → List String
config_args [] = []
config_args ((param, value) ∷ rest) = ("--" <> param) ∷ value ∷ config_args rest

abbrev instance_config : Option PostgresInstanceSpec → Dict String
instance_config none = []
instance_config (some instance) = instance.config

-- `Command` and `Args`, by the type of the backup.
unfoldable pub command_of :
    PostgresBackup → PostgresCluster → Option PostgresInstanceSpec → List String × List String
command_of backup cluster instance =
    if backup.spec.type == "logical"
    then (
      "pg_dump" ∷ [],
      ("-h"
            ∷ target_host_of cluster instance
            ∷ "-U"
            ∷ "postgres"
            ∷ "-d"
            ∷ database_name_of cluster.spec.database.name (instance_database instance)
            ∷ "-f"
            ∷ "/backup/data.sql"
            ∷ "-F"
            ∷ "c"
            ∷ "-Z"
            ∷ decimal backup.spec.options.compression
            ∷ [])
          ++ ((if ltb_ℤ (pos 1) backup.spec.options.parallel_jobs
                then "-j" ∷ decimal backup.spec.options.parallel_jobs ∷ []
                else [])
              ++ config_args (instance_config instance)),
    )
    else (
      "pg_basebackup" ∷ [],
      "-D"
          ∷ "/backup"
          ∷ "-h"
          ∷ target_host_of cluster instance
          ∷ "-U"
          ∷ "postgres"
          ∷ ("--compress=" <> string_of_rune backup.spec.options.compression)
          ∷ "--jobs"
          ∷ decimal backup.spec.options.parallel_jobs
          ∷ [],
    )

abbrev init_script_env : Option DatabaseSpec → List EnvVar
init_script_env none = []
init_script_env (some database) =
    if database.init_script == ""
    then []
    else record { name = "PGINITSCRIPT"; source = text database.init_script } ∷ []

abbrev backup_env : PostgresBackup → PostgresCluster → Option PostgresInstanceSpec → List EnvVar
backup_env backup cluster instance =
    record {
      name = "PGPASSWORD";
      source = secret_key_ref (cluster.metadata.name <> "-credentials") "postgres-password";
    }
    ∷ (if backup.spec.type == "logical" then init_script_env (instance_database instance) else [])

-- The labels of the instance, where there is one.
abbrev label_instance : Option PostgresInstanceSpec → Dict String → Dict String
label_instance none labels = labels
label_instance (some instance) labels =
    let named : Dict String = insert "database.example.com/instance" instance.name labels in
    if instance.role == "" then named else insert "database.example.com/role" instance.role named

abbrev backup_container : PostgresBackup → PostgresCluster → Option PostgresInstanceSpec → Container
backup_container backup cluster instance =
    let (command, args) = command_of backup cluster instance in
    record {
      name = "backup";
      image = "postgres:" <> cluster.spec.postgres_version;
      command = command;
      args = args;
      ports = [];
      env = backup_env backup cluster instance;
      volume_mounts =
          record { name = "backup-storage"; mount_path = "/backup"; read_only = false } ∷ [];
      resources = record { requests = []; limits = [] };
      liveness_probe = none;
      readiness_probe = none;
    }

-- The object of the source, for the volume claim that was found.
unfoldable pub backup_job :
    PostgresBackup → PostgresCluster → Option PostgresInstanceSpec → String → Job
unfolding command_of job_name_of
backup_job backup cluster instance pvc_name =
    let common : Dict String =
      ("app.kubernetes.io/name", "postgres-backup")
      ∷ ("app.kubernetes.io/instance", backup.spec.cluster_ref.name)
      ∷ ("app.kubernetes.io/managed-by", "postgres-operator")
      ∷ [] in
    record {
      metadata = new_metadata (job_name_of backup.metadata.name) backup.metadata.namespace (
          label_instance instance (
            common
            ++ (("database.example.com/cluster", backup.spec.cluster_ref.name)
                ∷ ("database.example.com/type", backup.spec.type)
                ∷ [])));
      backoff_limit = none;
      template = record {
        labels = common;
        spec = record {
          security_context = none;
          restart_policy = "OnFailure";
          containers = backup_container backup cluster instance ∷ [];
          init_containers = [];
          volumes = record { name = "backup-storage"; source = claim_volume pvc_name } ∷ [];
        };
      };
      status = record {
        active = pos 0;
        failed = pos 0;
        start_time = none;
        completion_time = none;
        conditions = [];
      };
    }

-- A missing key reads as the empty text, so one test covers `!ok || pvcName == ""`.
unfoldable pub create_backup_job :
    PostgresBackup → PostgresCluster → Option PostgresInstanceSpec → Result Job
unfolding backup_job
create_backup_job backup cluster instance =
    let pvc_name : String = value "pvcName" cluster.spec.backup.storage.config in
    if pvc_name == ""
    then err (error "pvcName not set in cluster backup storage config")
    else ok (backup_job backup cluster instance pvc_name)

module _ ⦃env : Env⦄ where
  unfoldable pub list_cluster_backups : String → String → Action (List PostgresBackup)
  list_cluster_backups cluster_name namespace =
      within "failed to list backups"
        (list_backups namespace (("database.example.com/cluster", cluster_name) ∷ []))

  unfoldable pub delete_backup : String → String → Action ⊤
  delete_backup backup_name namespace = do
    backup ← within "failed to get backup" (get postgres_backup (namespaced namespace backup_name))
    within "failed to delete backup"
        (delete postgres_backup (namespaced backup.metadata.namespace backup.metadata.name))
