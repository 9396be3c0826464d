-- ===== src/Kube/Env.antt =====
-- The world outside the operator, as a parameter. Every effect is a `Call`, a run is the history of
-- the calls that it has made, and an `Env` is any function from the history to the next answer, so
-- the theorems hold for every API server, database, clock and source of randomness.
use postgres_cluster_operato.Common.{ℕ, String, Bool, List, Dict, ℤ}
use postgres_cluster_operato.Api.Meta.{ObjectMeta, NamespacedName, LabelSelector, Time}
use postgres_cluster_operato.Api.Cluster.{PostgresCluster}
use postgres_cluster_operato.Api.User.{PostgresUser}
use postgres_cluster_operato.Api.Backup.{PostgresBackup}
use postgres_cluster_operato.Api.Restore.{PostgresRestore}
use postgres_cluster_operato.Kube.Pods.{Quantity}
use postgres_cluster_operato.Kube.Objects.{
  ConfigMap, Secret, Service, StatefulSet, Job, PersistentVolumeClaim,
}

-- `not_found` is the answer of `errors.IsNotFound`, which sees through `%w`.
pub record Error : Type 0 where
  pub message : String
  pub not_found : Bool

-- `panicked` is a run-time panic, such as a nil dereference: it unwinds the whole call.
pub data Result {ℓ} (A : Type ℓ) : Type ℓ where
  ok : A → Result A
  err : Error → Result A
  panicked : Result A

pub data Kind : Type 0 where
  postgres_cluster postgres_user postgres_backup postgres_restore : Kind
  config_map secret service stateful_set job persistent_volume_claim : Kind

-- The Go type of the objects of a kind.
abbrev pub Obj : Kind → Type 0
Obj postgres_cluster = PostgresCluster
Obj postgres_user = PostgresUser
Obj postgres_backup = PostgresBackup
Obj postgres_restore = PostgresRestore
Obj config_map = ConfigMap
Obj secret = Secret
Obj service = Service
Obj stateful_set = StatefulSet
Obj job = Job
Obj persistent_volume_claim = PersistentVolumeClaim

-- `client.Object`: an object of any kind.
pub data Object : Type 0 where
  a_cluster : PostgresCluster → Object
  a_user : PostgresUser → Object
  a_backup : PostgresBackup → Object
  a_restore : PostgresRestore → Object
  a_config_map : ConfigMap → Object
  a_secret : Secret → Object
  a_service : Service → Object
  a_stateful_set : StatefulSet → Object
  a_job : Job → Object
  a_claim : PersistentVolumeClaim → Object

abbrev pub as_object : (k : Kind) → Obj k → Object
as_object postgres_cluster o = a_cluster o
as_object postgres_user o = a_user o
as_object postgres_backup o = a_backup o
as_object postgres_restore o = a_restore o
as_object config_map o = a_config_map o
as_object secret o = a_secret o
as_object service o = a_service o
as_object stateful_set o = a_stateful_set o
as_object job o = a_job o
as_object persistent_volume_claim o = a_claim o

abbrev pub metadata_of : (k : Kind) → Obj k → ObjectMeta
metadata_of postgres_cluster o = o.metadata
metadata_of postgres_user o = o.metadata
metadata_of postgres_backup o = o.metadata
metadata_of postgres_restore o = o.metadata
metadata_of config_map o = o.metadata
metadata_of secret o = o.metadata
metadata_of service o = o.metadata
metadata_of stateful_set o = o.metadata
metadata_of job o = o.metadata
metadata_of persistent_volume_claim o = o.metadata

abbrev pub with_metadata : (k : Kind) → Obj k → ObjectMeta → Obj k
with_metadata postgres_cluster o m = record o { metadata = m }
with_metadata postgres_user o m = record o { metadata = m }
with_metadata postgres_backup o m = record o { metadata = m }
with_metadata postgres_restore o m = record o { metadata = m }
with_metadata config_map o m = record o { metadata = m }
with_metadata secret o m = record o { metadata = m }
with_metadata service o m = record o { metadata = m }
with_metadata stateful_set o m = record o { metadata = m }
with_metadata job o m = record o { metadata = m }
with_metadata persistent_volume_claim o m = record o { metadata = m }

-- One effect. A database is named by the connection string that it was opened with, a statement by
-- its text and its arguments.
pub data Call : Type 0 where
  get : Kind → NamespacedName → Call
  create : Object → Call
  update : Object → Call
  update_status : Object → Call
  delete : Kind → NamespacedName → Call
  list_backups : String → Dict String → Call
  -- `controllerutil.CreateOrUpdate` of a secret, with the function that mutates it
  create_or_update : Secret → (Secret → Secret) → Call
  now : Call
  rand_int : ℕ → Call
  sql_open : String → Call
  sql_ping : String → Call
  sql_query : String → String → List String → Call
  sql_exec : String → String → List String → Call
  sql_close : String → Call

-- The newest call first.
abbrev pub History : Type 0
History = List Call

pub record Env : Type 0 where
  -- The API server. A write answers with the object as the server has it, which replaces the
  -- caller's.
  pub on_get : History → (k : Kind) → NamespacedName → Result (Obj k)
  pub on_create : History → Object → Result (Unit {0})
  pub on_update : History → (k : Kind) → Obj k → Result (Obj k)
  pub on_update_status : History → (k : Kind) → Obj k → Result (Obj k)
  pub on_delete : History → Kind → NamespacedName → Result (Unit {0})
  pub on_list_backups : History → String → Dict String → Result (List PostgresBackup)
  pub on_create_or_update : History → Secret → (Secret → Secret) → Result (Unit {0})
  -- `controllerutil.SetControllerReference`, `ContainsFinalizer`, `AddFinalizer`, `RemoveFinalizer`
  pub controller_reference : Kind → ObjectMeta → ObjectMeta → Result ObjectMeta
  pub contains_finalizer : ObjectMeta → String → Bool
  pub add_finalizer : ObjectMeta → String → ObjectMeta
  pub remove_finalizer : ObjectMeta → String → ObjectMeta
  -- `resource.ParseQuantity`, `metav1.LabelSelectorAsSelector` with `Matches`
  pub parse_quantity : String → Result Quantity
  pub selector_of : LabelSelector → Result (Dict String → Bool)
  -- `time.Now`, `rand.Int`
  pub on_now : History → Time
  pub on_rand_int : History → ℕ → Result ℕ
  -- `database/sql` with `lib/pq`
  pub on_sql_open : History → String → Result (Unit {0})
  pub on_sql_ping : History → String → Result (Unit {0})
  pub on_sql_exec : History → String → String → List String → Result (Unit {0})
  pub on_query_bool : History → String → String → List String → Result Bool
  pub on_query_int : History → String → String → List String → Result ℤ
  pub on_query_text : History → String → String → List String → Result String
  pub quote_identifier : String → String
