-- ===== src/Api/Backup.antt =====
-- The resource `PostgresBackup`: api/v1/postgresbackup_types.go.
use postgres_cluster_operato.Common.{String, Bool, Option, List, Dict, ℤ}
use postgres_cluster_operato.Api.Meta.{ObjectMeta, Condition, Time}
use postgres_cluster_operato.Api.Selectors.{
  ClusterReference, SecretReference, InstanceSelector, BackupStorageSpec,
}

pub record RetentionPolicy : Type 0 where
  pub keep_last : ℤ
  pub keep_daily : ℤ
  pub keep_weekly : ℤ
  pub keep_monthly : ℤ
  pub delete_on_cluster_deletion : Bool

pub record EncryptionSpec : Type 0 where
  pub enabled : Bool
  pub secret_ref : Option SecretReference

pub record BackupOptions : Type 0 where
  pub compression : ℤ
  pub encryption : EncryptionSpec
  pub parallel_jobs : ℤ
  pub timeout : String

pub record PostgresBackupSpec : Type 0 where
  pub cluster_ref : ClusterReference
  pub type : String
  pub storage : BackupStorageSpec
  pub retention_policy : RetentionPolicy
  pub instances : Option InstanceSelector
  pub include_instance_config : Bool
  pub options : BackupOptions

pub record DatabaseStatus : Type 0 where
  pub name : String
  pub source : String
  pub config : Dict String
  pub exists : Bool

pub record PostgresBackupStatus : Type 0 where
  pub phase : String
  pub message : String
  pub start_time : Option Time
  pub completion_time : Option Time
  pub size : ℤ
  pub location : String
  pub conditions : List Condition
  pub wal_start : String
  pub wal_end : String
  pub job_name : String
  pub target_instance : String
  pub database : DatabaseStatus

pub record PostgresBackup : Type 0 where
  pub metadata : ObjectMeta
  pub spec : PostgresBackupSpec
  pub status : PostgresBackupStatus
