-- ===== src/Controllers/Cluster/Defaults.antt =====
-- `setDefaults`, the instance of a cluster that lists none, and `getInstanceResourceName`.
pub mod Filled
use postgres_cluster_operato.Common.{
  String, ◌<>◌, ℤ, pos, some, [], ◌==◌, string_eq, int_eq, if◌then◌else◌,
}
use postgres_cluster_operato.Api.Cluster.{
  PostgresCluster, PostgresClusterSpec, PostgresInstanceSpec,
}

-- `if field == "" { field = default }`
abbrev pub or_default : String → String → String
or_default field default = if field == "" then default else field

abbrev pub or_number : ℤ → ℤ → ℤ
or_number field default = if field == pos 0 then default else field

abbrev default_spec : PostgresClusterSpec → PostgresClusterSpec
default_spec s = record s {
  replicas = or_number s.replicas (pos 1);
  postgres_version = or_default s.postgres_version "15";
  database = record (s.database) { name = or_default s.database.name "postgres" };
  storage = record (s.storage) { size = or_default s.storage.size "10Gi" };
  resources = record (s.resources) {
    cpu = or_default s.resources.cpu "500m";
    memory = or_default s.resources.memory "1Gi";
  };
  high_availability = record (s.high_availability) {
    failover_timeout = or_number s.high_availability.failover_timeout (pos 30);
  };
}

unfoldable pub set_defaults : PostgresCluster → PostgresCluster
set_defaults cluster = record cluster { spec = default_spec cluster.spec }

-- The pointers into `cluster.Spec` are copies here: nothing writes through them.
unfoldable pub default_instance : PostgresClusterSpec → PostgresInstanceSpec
default_instance spec = record {
  name = "primary";
  replicas = some spec.replicas;
  role = "primary";
  database = some spec.database;
  storage = some spec.storage;
  resources = some spec.resources;
  config = [];
}

abbrev pub get_instance_resource_name : String → String → String
get_instance_resource_name cluster_name instance_name = cluster_name <> "-" <> instance_name
