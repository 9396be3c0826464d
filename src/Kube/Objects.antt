-- ===== src/Kube/Objects.antt =====
-- The Kubernetes objects that the operator owns, with the fields that it reads or writes.
use postgres_cluster_operato.Common.{String, Option, List, Dict, ℤ}
use postgres_cluster_operato.Api.Meta.{ObjectMeta, Time, ConditionStatus}
use postgres_cluster_operato.Kube.Pods.{Quantity, PodTemplateSpec}

pub record ConfigMap : Type 0 where
  pub metadata : ObjectMeta
  pub contents : Dict String

-- The values are byte strings in the source, and only texts are stored.
pub record Secret : Type 0 where
  pub metadata : ObjectMeta
  pub contents : Dict String

pub record ServicePort : Type 0 where
  pub name : String
  pub port : ℤ
  pub target_port : Option String
  pub protocol : String

pub record Service : Type 0 where
  pub metadata : ObjectMeta
  pub selector : Dict String
  pub ports : List ServicePort
  pub type : String

pub record PersistentVolumeClaim : Type 0 where
  pub metadata : ObjectMeta
  pub access_modes : List String
  pub requests : Dict Quantity
  pub storage_class_name : Option String

pub record StatefulSetSpec : Type 0 where
  pub replicas : ℤ
  pub service_name : String
  pub selector : Dict String
  pub template : PodTemplateSpec
  pub volume_claim_templates : List PersistentVolumeClaim

-- `ready_replicas` is `Status.ReadyReplicas`.
pub record StatefulSet : Type 0 where
  pub metadata : ObjectMeta
  pub spec : StatefulSetSpec
  pub ready_replicas : ℤ

pub record JobCondition : Type 0 where
  pub type : String
  pub status : ConditionStatus
  pub last_transition_time : Time
  pub reason : String
  pub message : String

pub record JobStatus : Type 0 where
  pub active : ℤ
  pub failed : ℤ
  pub start_time : Option Time
  pub completion_time : Option Time
  pub conditions : List JobCondition

pub record Job : Type 0 where
  pub metadata : ObjectMeta
  pub backoff_limit : Option ℤ
  pub template : PodTemplateSpec
  pub status : JobStatus
