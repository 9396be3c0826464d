-- ===== src/Controllers/Cluster/Services.antt =====
-- `reconcileInstanceService` and `reconcileMonitoring`.
use postgres_cluster_operato.Common.{
  String, ◌<>◌, pos, none, some, [], ◌∷◌, Dict, insert, ◌==◌, string_eq, if◌then◌else◌,
}
use postgres_cluster_operato.Api.Meta.{new_metadata}
use postgres_cluster_operato.Api.Cluster.{PostgresCluster, PostgresInstanceSpec}
use postgres_cluster_operato.Kube.Objects.{Service}
use postgres_cluster_operato.Kube.Env.{Env, postgres_cluster, service}
use postgres_cluster_operato.Kube.Action.{Action, ⊤, ◌>>=◌, pure, set_controller_reference}
use postgres_cluster_operato.Kube.Resources.{create_or_update}
use postgres_cluster_operato.Controllers.Cluster.Defaults.{get_instance_resource_name}

-- The labels by which the objects of an instance are found.
abbrev pub instance_selector : PostgresCluster → PostgresInstanceSpec → Dict String
instance_selector cluster instance =
    ("app", "postgres") ∷ ("cluster", cluster.metadata.name) ∷ ("instance", instance.name) ∷ []

abbrev pub instance_labels : PostgresCluster → PostgresInstanceSpec → Dict String
instance_labels cluster instance =
    ("app", "postgres")
    ∷ ("cluster", cluster.metadata.name)
    ∷ ("instance", instance.name)
    ∷ ("role", instance.role)
    ∷ []

-- `if instance.Role == "primary"`
abbrev mark_primary : String → Service → Service
mark_primary role s =
    if role == "primary"
    then record s {
      metadata = record (s.metadata) {
        labels = insert "primary" "true" s.metadata.labels;
        annotations = ("service.alpha.kubernetes.io/tolerate-unready-endpoints", "true") ∷ [];
      };
    }
    else s

unfoldable pub instance_service : PostgresCluster → PostgresInstanceSpec → Service
instance_service cluster instance = mark_primary instance.role (record {
  metadata =
      new_metadata (get_instance_resource_name cluster.metadata.name instance.name)
        cluster.metadata.namespace (instance_labels cluster instance);
  selector = instance_selector cluster instance;
  ports = record { name = "postgres"; port = pos 5432; target_port = none; protocol = "TCP" } ∷ [];
  type = "ClusterIP";
})

unfoldable pub metrics_service : PostgresCluster → Service
metrics_service cluster = record {
  metadata =
      new_metadata (cluster.metadata.name <> "-metrics") cluster.metadata.namespace
        (("app", "postgres") ∷ ("cluster", cluster.metadata.name) ∷ ("monitor", "prometheus") ∷ []);
  selector = ("app", "postgres") ∷ ("cluster", cluster.metadata.name) ∷ [];
  ports =
      record {
        name = "metrics";
        port = cluster.spec.monitoring.prometheus.port;
        target_port = some "metrics";
        protocol = "TCP";
      }
      ∷ [];
  type = "ClusterIP";
}

module _ ⦃env : Env⦄ where
  unfoldable pub reconcile_instance_service : PostgresCluster → PostgresInstanceSpec → Action ⊤
  unfolding instance_service
  reconcile_instance_service cluster instance = do
    built ←
        set_controller_reference postgres_cluster cluster.metadata service
          (instance_service cluster instance)
    create_or_update service built

  unfoldable pub reconcile_monitoring : PostgresCluster → Action ⊤
  unfolding metrics_service
  reconcile_monitoring cluster =
      if cluster.spec.monitoring.prometheus.enabled
      then (do
        built ←
            set_controller_reference postgres_cluster cluster.metadata service
              (metrics_service cluster)
        create_or_update service built)
      else pure tt
