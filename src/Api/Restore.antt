-- ===== src/Api/Restore.antt =====
-- The resource `PostgresRestore`: api/v1/postgresrestore_types.go.
use postgres_cluster_operato.Common.{String, Bool, Option, List, ℤ}
use postgres_cluster_operato.Api.Meta.{ObjectMeta, Condition, Time}
use postgres_cluster_operato.Api.Selectors.{ClusterReference, BackupReference, InstanceSelector}

-- `include` and `exclude` of the source
pub record DatabaseFilter : Type 0 where
  pub includes : List String
  pub excludes : List String

pub record RestoreOptions : Type 0 where
  pub drop_existing : Bool
  pub data_only : Bool
  pub schema_only : Bool
  pub timeout : String
  pub parallel_restores : ℤ
  pub database_filter : Option DatabaseFilter

pub record PostgresRestoreSpec : Type 0 where
  pub backup_ref : BackupReference
  pub target_cluster : ClusterReference
  pub options : RestoreOptions
  pub instances : Option InstanceSelector

pub record InstanceRestoreStatus : Type 0 where
  pub name : String
  pub phase : String
  pub message : String
  pub job_name : String
  pub start_time : Option Time
  pub completion_time : Option Time

pub record PostgresRestoreStatus : Type 0 where
  pub phase : String
  pub message : String
  pub job_name : String
  pub completion_time : Option Time
  pub start_time : Option Time
  pub wal_start : String
  pub wal_end : String
  pub conditions : List Condition
  pub instance_statuses : List InstanceRestoreStatus

pub record PostgresRestore : Type 0 where
  pub metadata : ObjectMeta
  pub spec : PostgresRestoreSpec
  pub status : PostgresRestoreStatus
