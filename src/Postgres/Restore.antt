-- ===== src/Postgres/Restore.antt =====
-- internal/postgres/restore.go: the restore command, and the volume that brings the backup in.
pub mod Feasible
use postgres_cluster_operato.Common.{
  String, ◌<>◌, ℤ, pos, ltb_ℤ, decimal, join, Bool, true, false, Option, none, some, List, [], ◌∷◌,
  ◌++◌, Dict, value, ◌==◌, string_eq, if◌then◌else◌, is_empty,
}
use postgres_cluster_operato.Api.Cluster.{DatabaseSpec}
use postgres_cluster_operato.Api.Backup.{PostgresBackup}
use postgres_cluster_operato.Api.Restore.{RestoreOptions, DatabaseFilter}
use postgres_cluster_operato.Kube.Pods.{
  text, secret_key_ref, Volume, VolumeMount, claim_volume, empty_dir, Container, PodSpec,
}
use postgres_cluster_operato.Kube.Objects.{Job}
use postgres_cluster_operato.Kube.Env.{Error, Result, ok, err, panicked}
use postgres_cluster_operato.Kube.Action.{error}

-- The options by the type of the backup: the `switch`.
unfoldable pub format_options : String → Result String
format_options type =
    if type == "logical"
    then ok (" --format=c" <> " --file=/backup/data.dump")
    else if type == "physical"
    then ok (" --format=directory" <> " --directory=/backup")
    else err (error ("unsupported backup type: " <> type))

abbrev option_if : Bool → String → String
option_if test option = if test then option else ""

-- ` --exclude-database=…` for each database
abbrev exclusions : List String → String
exclusions [] = ""
exclusions (db ∷ rest) = " --exclude-database=" <> db <> exclusions rest

abbrev filter_options : Option DatabaseFilter → String
filter_options none = ""
filter_options (some f) =
    (if is_empty f.includes then "" else " --dbname=" <> join f.includes ",")
    <> exclusions f.excludes

abbrev restore_options : RestoreOptions → String
restore_options options =
    option_if options.drop_existing " --clean"
    <> option_if options.data_only " --data-only"
    <> option_if options.schema_only " --schema-only"
    <> option_if (ltb_ℤ (pos 1) options.parallel_restores)
        (" --jobs=" <> decimal options.parallel_restores)
    <> (if options.timeout == "" then "" else " --timeout=" <> options.timeout)
    <> filter_options options.database_filter

abbrev wal_options : PostgresBackup → String
wal_options backup =
    (if backup.status.wal_start == "" then "" else " --wal-start=" <> backup.status.wal_start)
    <> (if backup.status.wal_end == "" then "" else " --wal-end=" <> backup.status.wal_end)

abbrev base_command : DatabaseSpec → String
base_command db_config =
    "pg_restore" <> " --host=${POSTGRES_HOST:-localhost}" <> " --port=${POSTGRES_PORT:-5432}"
    <> " --username=${POSTGRES_USER:-postgres}" <> " --dbname=" <> db_config.name

-- `BuildRestoreCommand`, for a backup that is not nil; its argument `storage` is not read.
unfoldable pub build_restore_command :
    PostgresBackup → RestoreOptions → DatabaseSpec → Result String
unfolding format_options
build_restore_command backup options db_config = elim (format_options backup.spec.type) [
  | ok format ↦
      ok (base_command db_config <> format <> restore_options options <> wal_options backup)
  | err e ↦ err e
  | panicked ↦ panicked
]

-- A volume, a mount in the first container, and init containers, added to the pod. A pod with no
-- container makes `Containers[0]` panic.
unfoldable pub add_to_pod : Volume → VolumeMount → List Container → PodSpec → Result PodSpec
add_to_pod volume mount inits pod = elim pod.containers [
  | [] ↦ panicked
  | c ∷ rest ↦ ok (record pod {
    volumes = pod.volumes ++ (volume ∷ []);
    init_containers = pod.init_containers ++ inits;
    containers = record c { volume_mounts = c.volume_mounts ++ (mount ∷ []) } ∷ rest;
  })
]

abbrev download_container : Dict String → Container
download_container config = record {
  name = "download-backup";
  image = "amazon/aws-cli:latest";
  command = "sh" ∷ "-c" ∷ [];
  args =
      ("aws s3 cp s3://"
        <> value "bucket" config
        <> "/"
        <> value "path" config
        <> " /backup --recursive")
      ∷ [];
  ports = [];
  env =
      record {
        name = "AWS_ACCESS_KEY_ID";
        source = secret_key_ref (value "secretName" config) "accessKey";
      }
      ∷ record {
        name = "AWS_SECRET_ACCESS_KEY";
        source = secret_key_ref (value "secretName" config) "secretKey";
      }
      ∷ record { name = "AWS_DEFAULT_REGION"; source = text (value "region" config) }
      ∷ [];
  volume_mounts = record { name = "backup"; mount_path = "/backup"; read_only = false } ∷ [];
  resources = record { requests = []; limits = [] };
  liveness_probe = none;
  readiness_probe = none;
}

-- The `switch` on the storage type, on the pod of the job.
unfoldable pub backup_volume : PostgresBackup → PodSpec → Result PodSpec
unfolding add_to_pod
backup_volume backup pod =
    let config : Dict String = backup.spec.storage.config in
    if backup.spec.storage.type == "local"
    then (if value "pvcName" config == ""
        then err (error "pvcName not specified in local backup storage config")
        else add_to_pod (record { name = "backup"; source = claim_volume (value "pvcName" config) })
            (record { name = "backup"; mount_path = "/backup"; read_only = true }) [] pod)
    else if backup.spec.storage.type == "s3"
    then add_to_pod (record { name = "backup"; source = empty_dir })
        (record { name = "backup"; mount_path = "/backup"; read_only = false })
        (download_container config ∷ []) pod
    else err (error ("unsupported backup storage type: " <> backup.spec.storage.type))

-- `AddBackupVolumeToJob`, for a job and a backup that are not nil.
unfoldable pub add_backup_volume_to_job : Job → PostgresBackup → Result Job
unfolding backup_volume
add_backup_volume_to_job job backup = elim (backup_volume backup job.template.spec) [
  | ok pod ↦ ok (record job { template = record (job.template) { spec = pod } })
  | err e ↦ err e
  | panicked ↦ panicked
]
