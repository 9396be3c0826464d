-- ===== src/Controllers/Cluster/Reconcile.antt =====
-- `reconcileCluster` and `Reconcile`.
pub mod NoDeletes
pub mod OwnNamespace
pub mod Confined
pub mod Wanted
pub mod Desired
pub mod Again
use postgres_cluster_operato.Common.{
  String, ◌<>◌, Bool, true, false, List, [], ◌∷◌, if◌then◌else◌, is_some, is_empty,
}
use postgres_cluster_operato.Api.Meta.{NamespacedName}
use postgres_cluster_operato.Api.Cluster.{PostgresCluster, PostgresInstanceSpec}
use postgres_cluster_operato.Kube.Env.{Env, postgres_cluster}
use postgres_cluster_operato.Kube.Action.{
  Action, ⊤, Requeue, no_requeue, ◌>>=◌, ◌>>◌, pure, raise, handle, within, when, get, update,
}
use postgres_cluster_operato.Controllers.Cluster.Defaults.{set_defaults, default_instance}
use postgres_cluster_operato.Controllers.Cluster.Config.{reconcile_config_map}
use postgres_cluster_operato.Controllers.Cluster.Credentials.{reconcile_secret}
use postgres_cluster_operato.Controllers.Cluster.Sets.{reconcile_instance}
use postgres_cluster_operato.Controllers.Cluster.Services.{reconcile_monitoring}
use postgres_cluster_operato.Controllers.Cluster.Status.{update_cluster_status}
use postgres_cluster_operato.Controllers.Cluster.Deletion.{cluster_finalizer, handle_deletion}

module _ ⦃env : Env⦄ where
  unfoldable pub reconcile_instances : PostgresCluster → List PostgresInstanceSpec → Action ⊤
  reconcile_instances cluster [] = pure tt
  reconcile_instances cluster (instance ∷ rest) = do
    within ("failed to reconcile instance " <> instance.name) (reconcile_instance cluster instance)
    reconcile_instances cluster rest

  unfoldable pub reconcile_cluster : PostgresCluster → Action ⊤
  reconcile_cluster cluster = do
    within "failed to reconcile ConfigMap" (reconcile_config_map cluster)
    within "failed to reconcile Secret" (reconcile_secret cluster)
    reconcile_instances cluster cluster.spec.instances
    when cluster.spec.monitoring.enabled
        (within "failed to reconcile monitoring" (reconcile_monitoring cluster))

  -- `Add finalizer if not present`
  unfoldable pub ensure_finalizer : PostgresCluster → Action PostgresCluster
  ensure_finalizer cluster =
      if env.contains_finalizer cluster.metadata cluster_finalizer
      then pure cluster
      else update postgres_cluster
          (record cluster { metadata = env.add_finalizer cluster.metadata cluster_finalizer })

  -- The part of `Reconcile` below `setDefaults`.
  unfoldable pub reconcile_active : PostgresCluster → Action Requeue
  unfolding default_instance
  reconcile_active cluster =
      if is_empty cluster.spec.instances
      then (do
        update postgres_cluster (record cluster {
          spec = record (cluster.spec) { instances = default_instance cluster.spec ∷ [] };
        })
        pure (record { requeue = true; after_minutes = 0 }))
      else (do
        reconcile_cluster cluster
        update_cluster_status cluster
        pure (record { requeue = false; after_minutes = 5 }))

  unfoldable pub reconcile : NamespacedName → Action Requeue
  unfolding ensure_finalizer reconcile_active
  reconcile key =
      handle (get postgres_cluster key) (λ e. if e.not_found then pure no_requeue else raise e)
        (λ found. do
          cluster ← ensure_finalizer found
          if is_some cluster.metadata.deletion_timestamp
              then handle_deletion cluster
              else reconcile_active (set_defaults cluster))
