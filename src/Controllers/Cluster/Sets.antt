-- ===== src/Controllers/Cluster/Sets.antt =====
-- `reconcileInstanceStatefulSet`, the pods of one instance, and `reconcileInstance`.
use postgres_cluster_operato.Common.{
  ℕ, String, ◌<>◌, pos, false, ◌&&◌, Option, none, some, List, [], ◌∷◌, ◌++◌, ◌==◌, string_eq,
  if◌then◌else◌, is_empty,
}
use postgres_cluster_operato.Api.Meta.{new_metadata}
use postgres_cluster_operato.Api.Cluster.{
  PostgresCluster, PostgresInstanceSpec, DatabaseSpec, StorageSpec,
}
use postgres_cluster_operato.Kube.Pods.{
  Quantity, EnvVar, text, secret_key_ref, config_map_volume, Probe, ContainerResources, Container,
}
use postgres_cluster_operato.Kube.Objects.{StatefulSet}
use postgres_cluster_operato.Kube.Env.{Env, postgres_cluster, stateful_set}
use postgres_cluster_operato.Kube.Action.{
  Action, ⊤, ◌>>=◌, ◌>>◌, lift, within, must_parse, set_controller_reference,
}
use postgres_cluster_operato.Kube.Resources.{create_or_update}
use postgres_cluster_operato.Controllers.Cluster.Defaults.{get_instance_resource_name}
use postgres_cluster_operato.Controllers.Cluster.Services.{
  instance_selector, instance_labels, reconcile_instance_service,
}

-- `*override` where the instance sets it, and else the value of the cluster.
abbrev pub or_cluster {ℓ} : {A : Type ℓ} → Option A → A → A
or_cluster none default = default
or_cluster (some override) default = override

unfoldable pub access_modes_of : StorageSpec → List String
access_modes_of storage =
    if is_empty storage.access_modes then "ReadWriteOnce" ∷ [] else storage.access_modes

abbrev pub storage_class_of : StorageSpec → Option String
storage_class_of storage = if storage.storage_class == "" then none else some storage.storage_class

-- `pg_isready`, the command of both probes.
abbrev pg_isready : ℕ → ℕ → ℕ → Probe
pg_isready initial_delay period timeout = record {
  command = "pg_isready" ∷ "-U" ∷ "postgres" ∷ "-h" ∷ "localhost" ∷ "-p" ∷ "5432" ∷ [];
  initial_delay_seconds = initial_delay;
  period_seconds = period;
  timeout_seconds = timeout;
}

-- The environment of the container; a replica with high availability is told its primary.
unfoldable pub environment : PostgresCluster → PostgresInstanceSpec → DatabaseSpec → List EnvVar
environment cluster instance db_config =
    let base : List EnvVar =
      record { name = "POSTGRES_DB"; source = text db_config.name }
      ∷ record {
        name = "POSTGRES_PASSWORD";
        source = secret_key_ref (cluster.metadata.name <> "-credentials") "postgres-password";
      }
      ∷ record {
        name = "POSTGRES_REPLICATION_PASSWORD";
        source = secret_key_ref (cluster.metadata.name <> "-credentials") "replication-password";
      }
      ∷ record { name = "PGDATA"; source = text "/var/lib/postgresql/data/pgdata" }
      ∷ [] in
    if instance.role == "replica" && cluster.spec.high_availability.enabled
    then base
      ++ (record { name = "POSTGRES_REPLICATION_MODE"; source = text "replica" }
          ∷ record {
            name = "POSTGRES_REPLICATION_PRIMARY_HOST";
            source = text (
                cluster.metadata.name <> "-primary." <> cluster.metadata.namespace
                <> ".svc.cluster.local");
          }
          ∷ [])
    else base

abbrev no_resources : ContainerResources
no_resources = record { requests = []; limits = [] }

-- `if dbConfig.InitScript != ""`
abbrev init_containers_of : DatabaseSpec → List Container
init_containers_of db_config =
    if db_config.init_script == ""
    then []
    else record {
      name = "init-db";
      image = "busybox:1.28";
      command = "sh" ∷ "-c" ∷ db_config.init_script ∷ [];
      args = [];
      ports = [];
      env = [];
      volume_mounts =
          record { name = "data"; mount_path = "/var/lib/postgresql/data"; read_only = false } ∷ [];
      resources = no_resources;
      liveness_probe = none;
      readiness_probe = none;
    }
      ∷ []

abbrev postgres_container :
    PostgresCluster → PostgresInstanceSpec → DatabaseSpec → Quantity → Quantity → Container
postgres_container cluster instance db_config cpu memory = record {
  name = "postgres";
  image = "postgres:" <> cluster.spec.postgres_version;
  command = [];
  args = [];
  ports = record { name = "postgres"; container_port = 5432 } ∷ [];
  env = environment cluster instance db_config;
  volume_mounts =
      record { name = "data"; mount_path = "/var/lib/postgresql/data"; read_only = false }
      ∷ record { name = "config"; mount_path = "/etc/postgresql"; read_only = false }
      ∷ [];
  resources = record {
    requests = ("cpu", cpu) ∷ ("memory", memory) ∷ [];
    limits = ("cpu", cpu) ∷ ("memory", memory) ∷ [];
  };
  liveness_probe = some (pg_isready 30 10 5);
  readiness_probe = some (pg_isready 5 5 1);
}

-- The object of the source, with the quantities that were parsed.
unfoldable pub instance_stateful_set :
    PostgresCluster → PostgresInstanceSpec → Quantity → Quantity → Quantity → StatefulSet
unfolding environment access_modes_of
instance_stateful_set cluster instance cpu memory size =
    let name : String = get_instance_resource_name cluster.metadata.name instance.name in
    let db_config : DatabaseSpec = or_cluster instance.database cluster.spec.database in
    let storage : StorageSpec = or_cluster instance.storage cluster.spec.storage in
    record {
      metadata = new_metadata name cluster.metadata.namespace (instance_labels cluster instance);
      spec = record {
        replicas = or_cluster instance.replicas (pos 1);
        service_name = name;
        selector = instance_selector cluster instance;
        template = record {
          labels = instance_labels cluster instance;
          spec = record {
            security_context = some (record { run_as_user = 999; fs_group = 999 });
            restart_policy = "";
            containers = postgres_container cluster instance db_config cpu memory ∷ [];
            init_containers = init_containers_of db_config;
            volumes =
                record {
                  name = "config";
                  source = config_map_volume (cluster.metadata.name <> "-config");
                }
                ∷ [];
          };
        };
        volume_claim_templates =
            record {
              metadata = new_metadata "data" "" (instance_selector cluster instance);
              access_modes = access_modes_of storage;
              requests = ("storage", size) ∷ [];
              storage_class_name = storage_class_of storage;
            }
            ∷ [];
      };
      ready_replicas = pos 0;
    }

module _ ⦃env : Env⦄ where
  unfoldable pub reconcile_instance_stateful_set : PostgresCluster → PostgresInstanceSpec → Action ⊤
  unfolding instance_stateful_set
  reconcile_instance_stateful_set cluster instance = do
    let resources = or_cluster instance.resources cluster.spec.resources
    cpu ← within "invalid CPU value" (lift (env.parse_quantity resources.cpu))
    memory ← within "invalid Memory value" (lift (env.parse_quantity resources.memory))
    size ← must_parse (or_cluster instance.storage cluster.spec.storage).size
    built ← within "failed to set controller reference" (
        set_controller_reference postgres_cluster cluster.metadata stateful_set
          (instance_stateful_set cluster instance cpu memory size))
    within "failed to create/update StatefulSet" (create_or_update stateful_set built)

  unfoldable pub reconcile_instance : PostgresCluster → PostgresInstanceSpec → Action ⊤
  reconcile_instance cluster instance = do
    reconcile_instance_service cluster instance
    reconcile_instance_stateful_set cluster instance
