-- ===== src/Api/Meta.antt =====
-- `metav1`: the metadata, conditions and label selectors that the resource types embed.
use postgres_cluster_operato.Common.{ℕ, String, Bool, Option, none, List, [], Dict}

-- `metav1.Time`, in nanoseconds since the epoch.
abbrev pub Time : Type 0
Time = ℕ

pub record OwnerReference : Type 0 where
  pub kind : String
  pub name : String
  pub controller : Bool

-- The fields of `metav1.ObjectMeta` that the operator reads or writes.
pub record ObjectMeta : Type 0 where
  pub name : String
  pub namespace : String
  pub labels : Dict String
  pub annotations : Dict String
  pub finalizers : List String
  pub deletion_timestamp : Option Time
  pub resource_version : String
  pub owner_references : List OwnerReference

pub data ConditionStatus : Type 0 where
  condition_true condition_false condition_unknown : ConditionStatus

pub record Condition : Type 0 where
  pub type : String
  pub status : ConditionStatus
  pub last_transition_time : Time
  pub reason : String
  pub message : String

pub record LabelSelectorRequirement : Type 0 where
  pub key : String
  pub operator : String
  pub values : List String

pub record LabelSelector : Type 0 where
  pub match_labels : Dict String
  pub match_expressions : List LabelSelectorRequirement

-- `types.NamespacedName`, a pair of a namespace and a name.
pub record NamespacedName : Type 0 where
  pub namespace : String
  pub name : String

-- The metadata of an object that the operator builds: a name, a namespace and labels.
abbrev pub new_metadata : String → String → Dict String → ObjectMeta
new_metadata name namespace labels = record {
  name = name;
  namespace = namespace;
  labels = labels;
  annotations = [];
  finalizers = [];
  deletion_timestamp = none;
  resource_version = "";
  owner_references = [];
}

abbrev pub namespaced : String → String → NamespacedName
namespaced namespace name = record { namespace = namespace; name = name }
