-- ===== src/Api/Cluster.antt =====
-- The resource `PostgresCluster`: api/v1/postgrescluster_types.go. A pointer is an `Option`, and a
-- number of type int32 an integer.
use postgres_cluster_operato.Common.{String, Bool, Option, List, Dict, ℤ}
use postgres_cluster_operato.Api.Meta.{ObjectMeta, Condition, Time}
use postgres_cluster_operato.Api.Selectors.{BackupStorageSpec}

pub record SchemaAccess : Type 0 where
  pub name : String
  pub privileges : List String

pub record DatabaseAccess : Type 0 where
  pub username : String
  pub privileges : List String
  pub schemas : List SchemaAccess

pub record DatabaseSpec : Type 0 where
  pub name : String
  pub init_script : String
  pub config : Dict String
  pub access : List DatabaseAccess

pub record StorageSpec : Type 0 where
  pub volume_name : String
  pub size : String
  pub storage_class : String
  pub access_modes : List String

pub record ResourceRequirements : Type 0 where
  pub cpu : String
  pub memory : String
  pub storage : String

pub record HaSpec : Type 0 where
  pub enabled : Bool
  pub synchronous_replication : Bool
  pub failover_timeout : ℤ

pub record PrometheusSpec : Type 0 where
  pub enabled : Bool
  pub port : ℤ
  pub path : String

pub record MonitoringSpec : Type 0 where
  pub enabled : Bool
  pub prometheus : PrometheusSpec

pub record BackupSpec : Type 0 where
  pub enabled : Bool
  pub schedule : String
  pub retention_policy : String
  pub storage : BackupStorageSpec

pub record PostgresInstanceSpec : Type 0 where
  pub name : String
  pub replicas : Option ℤ
  pub role : String
  pub storage : Option StorageSpec
  pub resources : Option ResourceRequirements
  pub database : Option DatabaseSpec
  pub config : Dict String

pub record PostgresClusterSpec : Type 0 where
  pub postgres_version : String
  pub instances : List PostgresInstanceSpec
  pub high_availability : HaSpec
  pub backup : BackupSpec
  pub replicas : ℤ
  pub role : String
  pub storage : StorageSpec
  pub resources : ResourceRequirements
  pub database : DatabaseSpec
  pub monitoring : MonitoringSpec

pub record PostgresInstanceStatus : Type 0 where
  pub name : String
  pub ready_replicas : ℤ
  pub role : String
  pub current_leader : String
  pub labels : Dict String

pub record PostgresClusterStatus : Type 0 where
  pub phase : String
  pub message : String
  pub ready_replicas : ℤ
  pub current_primary : String
  pub conditions : List Condition
  pub last_backup : Option Time
  pub database_version : String
  pub instances : List PostgresInstanceStatus

pub record PostgresCluster : Type 0 where
  pub metadata : ObjectMeta
  pub spec : PostgresClusterSpec
  pub status : PostgresClusterStatus
