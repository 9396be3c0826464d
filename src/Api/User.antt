-- ===== src/Api/User.antt =====
-- The resource `PostgresUser`: api/v1/postgresuser_types.go.
use postgres_cluster_operato.Common.{String, Bool, Option, List, ℤ}
use postgres_cluster_operato.Api.Meta.{ObjectMeta, Condition, Time}
use postgres_cluster_operato.Api.Selectors.{ClusterReference, SecretReference, InstanceSelector}

pub record PasswordRotationPolicy : Type 0 where
  pub enabled : Bool
  pub interval : ℤ

pub record PasswordSpec : Type 0 where
  pub secret_ref : Option SecretReference
  pub generate : Bool
  pub length : ℤ
  pub rotation_policy : Option PasswordRotationPolicy

pub record PostgresUserSpec : Type 0 where
  pub cluster_ref : Option ClusterReference
  pub username : String
  pub password : Option PasswordSpec
  pub privileges : List String
  pub connection_limit : ℤ
  pub instance_selector : Option InstanceSelector

pub record UserInstanceStatus : Type 0 where
  pub name : String
  pub ready : Bool
  pub message : String
  pub last_updated : Option Time

pub record PostgresUserStatus : Type 0 where
  pub phase : String
  pub message : String
  pub conditions : List Condition
  pub last_password_change : Option Time
  pub databases_granted : List String
  pub instance_statuses : List UserInstanceStatus

pub record PostgresUser : Type 0 where
  pub metadata : ObjectMeta
  pub spec : PostgresUserSpec
  pub status : PostgresUserStatus
