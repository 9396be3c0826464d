-- ===== src/Api/Selectors.antt =====
-- The references and selectors that several resources share: api/v1/postgresuser_types.go,
-- api/v1/postgresbackup_types.go and api/v1/postgresrestore_types.go.
use postgres_cluster_operato.Common.{String, Option, List, Dict}
use postgres_cluster_operato.Api.Meta.{LabelSelector}

pub record ClusterReference : Type 0 where
  pub name : String
  pub namespace : String

pub record BackupReference : Type 0 where
  pub name : String
  pub namespace : String

pub record SecretReference : Type 0 where
  pub name : String
  pub key : String

pub record InstanceSelector : Type 0 where
  pub names : List String
  pub role : String
  pub label_selector : Option LabelSelector

pub record BackupStorageSpec : Type 0 where
  pub type : String
  pub config : Dict String
