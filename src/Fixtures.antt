-- ===== src/Fixtures.antt =====
-- A small world with one cluster, and the objects that the tests run on.
pub mod World
pub mod Server
pub mod Vault
use postgres_cluster_operato.Api.Meta.{ObjectMeta, new_metadata}
use postgres_cluster_operato.Api.Backup.{PostgresBackup}
use postgres_cluster_operato.Api.Restore.{PostgresRestore, InstanceRestoreStatus}
use postgres_cluster_operato.Common.{String, true, [], some, none, Option, ◌∷◌, pos, ℤ, ◌<>◌, false}
use postgres_cluster_operato.Api.Cluster.{PostgresCluster, PostgresInstanceSpec, StorageSpec}
use postgres_cluster_operato.Api.Selectors.{BackupStorageSpec}
use postgres_cluster_operato.Kube.Objects.{Job, JobStatus, ConfigMap}
use postgres_cluster_operato.Api.User.{PostgresUser}

abbrev meta : String → ObjectMeta
meta name = new_metadata name "prod" []

abbrev no_storage : StorageSpec
no_storage = record { volume_name = "data"; size = "10Gi"; storage_class = ""; access_modes = [] }

abbrev pub instance_named : String → String → Option ℤ → PostgresInstanceSpec
instance_named name role replicas = record {
  name = name;
  replicas = replicas;
  role = role;
  storage = none;
  resources = none;
  database = none;
  config = [];
}

abbrev pub primary : PostgresInstanceSpec
primary = instance_named "a" "primary" none

abbrev pub replica : PostgresInstanceSpec
replica = instance_named "b" "replica" (some (pos 2))

abbrev local_storage : BackupStorageSpec
local_storage = record { type = "local"; config = ("pvcName", "vault") ∷ [] }

abbrev pub demo : PostgresCluster
demo = record {
  metadata = meta "db";
  spec = record {
    postgres_version = "15";
    instances = primary ∷ replica ∷ [];
    high_availability = record {
      enabled = false;
      synchronous_replication = false;
      failover_timeout = pos 30;
    };
    backup = record {
      enabled = true;
      schedule = "";
      retention_policy = "";
      storage = local_storage;
    };
    replicas = pos 1;
    role = "";
    storage = no_storage;
    resources = record { cpu = "500m"; memory = "1Gi"; storage = "" };
    database = record { name = "app"; init_script = ""; config = []; access = [] };
    monitoring = record {
      enabled = false;
      prometheus = record { enabled = false; port = pos 0; path = "" };
    };
  };
  status = record {
    phase = "";
    message = "";
    ready_replicas = pos 0;
    current_primary = "";
    conditions = [];
    last_backup = none;
    database_version = "";
    instances = [];
  };
}

abbrev pub reader : PostgresUser
reader = record {
  metadata = meta "reader";
  spec = record {
    cluster_ref = some (record { name = "db"; namespace = "" });
    username = "reader";
    password =
        some
          (record { secret_ref = none; generate = true; length = pos 20; rotation_policy = none });
    privileges = "pg_read_all_data" ∷ [];
    connection_limit = pos 5;
    instance_selector = none;
  };
  status = record {
    phase = "Ready";
    message = "";
    conditions = [];
    last_password_change = some 7;
    databases_granted = [];
    instance_statuses = [];
  };
}

abbrev pub nightly : PostgresBackup
nightly = record {
  metadata = meta "nightly";
  spec = record {
    cluster_ref = record { name = "db"; namespace = "" };
    type = "";
    storage = local_storage;
    retention_policy = record {
      keep_last = pos 1;
      keep_daily = pos 0;
      keep_weekly = pos 0;
      keep_monthly = pos 0;
      delete_on_cluster_deletion = false;
    };
    instances = none;
    include_instance_config = false;
    options = record {
      compression = pos 12;
      encryption = record { enabled = false; secret_ref = none };
      parallel_jobs = pos 0;
      timeout = "";
    };
  };
  status = record {
    phase = "";
    message = "";
    start_time = some 3;
    completion_time = none;
    size = pos 0;
    location = "";
    conditions = [];
    wal_start = "";
    wal_end = "";
    job_name = "";
    target_instance = "";
    database = record { name = ""; source = ""; config = []; exists = false };
  };
}

abbrev pub restored : String → String → InstanceRestoreStatus
restored name phase = record {
  name = name;
  phase = phase;
  message = "";
  job_name = "back-" <> name <> "-restore";
  start_time = none;
  completion_time = none;
}

abbrev pub back : PostgresRestore
back = record {
  metadata = meta "back";
  spec = record {
    backup_ref = record { name = "nightly"; namespace = "" };
    target_cluster = record { name = "db"; namespace = "" };
    options = record {
      drop_existing = true;
      data_only = false;
      schema_only = false;
      timeout = "";
      parallel_restores = pos 2;
      database_filter = none;
    };
    instances = none;
  };
  status = record {
    phase = "Running";
    message = "";
    job_name = "";
    completion_time = none;
    start_time = none;
    wal_start = "";
    wal_end = "";
    conditions = [];
    instance_statuses = restored "a" "Completed" ∷ restored "b" "Pending" ∷ [];
  };
}

abbrev pub finished : JobStatus
finished = record {
  active = pos 0;
  failed = pos 1;
  start_time = some 4;
  completion_time = some 9;
  conditions = [];
}

abbrev pub finished_job : Job
finished_job = record {
  metadata = meta "nightly-job";
  backoff_limit = none;
  template = record {
    labels = [];
    spec = record {
      security_context = none;
      restart_policy = "OnFailure";
      containers = [];
      init_containers = [];
      volumes = [];
    };
  };
  status = finished;
}

abbrev pub settings_map : ConfigMap
settings_map = record {
  metadata = meta "db-config";
  contents = ("postgresql.conf", "synchronous_commit = on\n") ∷ [];
}
