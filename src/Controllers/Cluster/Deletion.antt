-- ===== src/Controllers/Cluster/Deletion.antt =====
-- `handleDeletion`: the objects of the cluster go first, then the finalizer.
pub mod Order
use postgres_cluster_operato.Common.{String, ◌<>◌, List, [], ◌∷◌}
use postgres_cluster_operato.Api.Meta.{namespaced}
use postgres_cluster_operato.Api.Cluster.{PostgresCluster, PostgresInstanceSpec}
use postgres_cluster_operato.Kube.Env.{
  Env, postgres_cluster, stateful_set, service, config_map, secret,
}
use postgres_cluster_operato.Kube.Action.{
  Action, ⊤, Requeue, no_requeue, ◌>>=◌, ◌>>◌, pure, ignore_not_found, delete, update,
}
use postgres_cluster_operato.Controllers.Cluster.Defaults.{get_instance_resource_name}

abbrev pub cluster_finalizer : String
cluster_finalizer = "database.example.com/postgres-cluster"

module _ ⦃env : Env⦄ where
  unfoldable pub delete_instances : PostgresCluster → List PostgresInstanceSpec → Action ⊤
  delete_instances cluster [] = pure tt
  delete_instances cluster (instance ∷ rest) = do
    let name = get_instance_resource_name cluster.metadata.name instance.name
    ignore_not_found (delete stateful_set (namespaced cluster.metadata.namespace name))
    ignore_not_found (delete service (namespaced cluster.metadata.namespace name))
    delete_instances cluster rest

  unfoldable pub handle_deletion : PostgresCluster → Action Requeue
  unfolding delete_instances
  handle_deletion cluster = do
    let key =
        λ (suffix : String). namespaced cluster.metadata.namespace (cluster.metadata.name <> suffix)
    delete_instances cluster cluster.spec.instances
    ignore_not_found (delete config_map (key "-config"))
    ignore_not_found (delete secret (key "-credentials"))
    update postgres_cluster
        (record cluster { metadata = env.remove_finalizer cluster.metadata cluster_finalizer })
    pure no_requeue
