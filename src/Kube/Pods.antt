-- ===== src/Kube/Pods.antt =====
-- The parts of a pod that the operator writes: k8s.io/api/core/v1.
use postgres_cluster_operato.Common.{ℕ, String, Bool, Option, List, Dict}

-- `resource.Quantity`, by its canonical text.
pub record Quantity : Type 0 where
  pub canonical : String

pub data EnvVarSource : Type 0 where
  -- `Value`
  text : String → EnvVarSource
  -- `ValueFrom.SecretKeyRef`, the name of the secret and the key
  secret_key_ref : String → String → EnvVarSource

pub record EnvVar : Type 0 where
  pub name : String
  pub source : EnvVarSource

pub record VolumeMount : Type 0 where
  pub name : String
  pub mount_path : String
  pub read_only : Bool

pub data VolumeSource : Type 0 where
  config_map_volume : String → VolumeSource
  claim_volume : String → VolumeSource
  empty_dir : VolumeSource

pub record Volume : Type 0 where
  pub name : String
  pub source : VolumeSource

pub record ContainerPort : Type 0 where
  pub name : String
  pub container_port : ℕ

pub record Probe : Type 0 where
  pub command : List String
  pub initial_delay_seconds : ℕ
  pub period_seconds : ℕ
  pub timeout_seconds : ℕ

pub record ContainerResources : Type 0 where
  pub requests : Dict Quantity
  pub limits : Dict Quantity

pub record Container : Type 0 where
  pub name : String
  pub image : String
  pub command : List String
  pub args : List String
  pub ports : List ContainerPort
  pub env : List EnvVar
  pub volume_mounts : List VolumeMount
  pub resources : ContainerResources
  pub liveness_probe : Option Probe
  pub readiness_probe : Option Probe

pub record PodSecurityContext : Type 0 where
  pub run_as_user : ℕ
  pub fs_group : ℕ

pub record PodSpec : Type 0 where
  pub security_context : Option PodSecurityContext
  pub restart_policy : String
  pub containers : List Container
  pub init_containers : List Container
  pub volumes : List Volume

pub record PodTemplateSpec : Type 0 where
  pub labels : Dict String
  pub spec : PodSpec
