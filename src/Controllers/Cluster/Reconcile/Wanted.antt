-- ===== src/Controllers/Cluster/Reconcile/Wanted.antt =====
-- The objects that a cluster asks for.
use postgres_cluster_operato.Controllers.Cluster.Sets.{instance_stateful_set, or_cluster}
use postgres_cluster_operato.Api.Meta.{new_metadata}
use postgres_cluster_operato.Kube.Ensures.{want, Want}
use postgres_cluster_operato.Kube.Pods.{Quantity}
use postgres_cluster_operato.Kube.Objects.{ConfigMap, Secret, StatefulSet}
use postgres_cluster_operato.Controllers.Cluster.Config.{generate_postgres_config}
use postgres_cluster_operato.Common.{List, String, ◌∷◌, if◌then◌else◌, ◌<>◌, [], ◌++◌}
use postgres_cluster_operato.Controllers.Cluster.Services.{metrics_service, instance_service}
use postgres_cluster_operato.Api.Cluster.{PostgresCluster, PostgresInstanceSpec}
use postgres_cluster_operato.Kube.Env.{
  Result, Env, ok, config_map, err, secret, service, panicked, stateful_set,
}

-- The number that a quantity of the spec stands for; a spec with a text that is none has no object.
abbrev pub quantity_or_empty : Result Quantity → Quantity
quantity_or_empty (ok q) = q
quantity_or_empty (err e) = record { canonical = "" }
quantity_or_empty panicked = record { canonical = "" }

abbrev pub config_template : PostgresCluster → ConfigMap
config_template c = record {
  metadata = new_metadata (c.metadata.name <> "-config") c.metadata.namespace [];
  contents = ("postgresql.conf", generate_postgres_config c) ∷ [];
}

-- The passwords are drawn at random.
abbrev pub secret_template : PostgresCluster → Secret
secret_template c = record {
  metadata = new_metadata (c.metadata.name <> "-credentials") c.metadata.namespace [];
  contents = [];
}

abbrev pub monitoring_objects : PostgresCluster → List Want
monitoring_objects c =
    if c.spec.monitoring.enabled
    then if c.spec.monitoring.prometheus.enabled then want service (metrics_service c) ∷ [] else []
    else []

module _ (env : Env) where
  abbrev pub parsed : String → Quantity
  parsed text = quantity_or_empty (env.parse_quantity text)

  abbrev pub set_template : PostgresCluster → PostgresInstanceSpec → StatefulSet
  set_template c i =
      instance_stateful_set c i (parsed (or_cluster i.resources c.spec.resources).cpu)
        (parsed (or_cluster i.resources c.spec.resources).memory)
        (parsed (or_cluster i.storage c.spec.storage).size)

  abbrev pub instance_objects : PostgresCluster → List PostgresInstanceSpec → List Want
  instance_objects c [] = []
  instance_objects c (i ∷ is) =
      want service (instance_service c i)
      ∷ want stateful_set (set_template c i)
      ∷ instance_objects c is

  -- The settings, the credentials, a service and a stateful set for each instance, and the service
  -- of the metrics where they are asked for.
  abbrev pub desired : PostgresCluster → List Want
  desired c =
      want config_map (config_template c)
      ∷ want secret (secret_template c)
      ∷ (instance_objects c c.spec.instances ++ monitoring_objects c)
