-- ===== src/Controllers/Cluster/Config.antt =====
-- `generatePostgresConfig` and `reconcileConfigMap`.
pub mod Sections
use postgres_cluster_operato.Common.{String, ◌<>◌, List, [], ◌∷◌, Dict, if◌then◌else◌, is_empty}
use postgres_cluster_operato.Api.Meta.{new_metadata}
use postgres_cluster_operato.Api.Cluster.{PostgresCluster, PostgresInstanceSpec, HaSpec}
use postgres_cluster_operato.Kube.Env.{Env, postgres_cluster, config_map}
use postgres_cluster_operato.Kube.Action.{Action, ⊤, ◌>>=◌, set_controller_reference}
use postgres_cluster_operato.Kube.Resources.{create_or_update}

unfoldable pub ha_settings : HaSpec → String
ha_settings ha =
    if ha.enabled
    then "synchronous_commit = on\n"
      <> (if ha.synchronous_replication then "synchronous_standby_names = '*'\n" else "")
    else ""

unfoldable pub settings : String → Dict String → String
settings config [] = config
settings config ((k, v) ∷ rest) = settings (config <> (k <> " = " <> v <> "\n")) rest

unfoldable pub instance_configs : String → List PostgresInstanceSpec → String
instance_configs config [] = config
instance_configs config (instance ∷ rest) =
    instance_configs
      (if is_empty instance.config
        then config
        else settings (config <> ("\n# Configuration for instance " <> instance.name <> "\n"))
            instance.config)
      rest

unfoldable pub generate_postgres_config : PostgresCluster → String
unfolding ha_settings settings instance_configs
generate_postgres_config cluster =
    instance_configs (ha_settings cluster.spec.high_availability) cluster.spec.instances

module _ ⦃env : Env⦄ where
  unfoldable pub reconcile_config_map : PostgresCluster → Action ⊤
  reconcile_config_map cluster = do
    built ← set_controller_reference postgres_cluster cluster.metadata config_map (record {
      metadata = new_metadata (cluster.metadata.name <> "-config") cluster.metadata.namespace [];
      contents = ("postgresql.conf", generate_postgres_config cluster) ∷ [];
    })
    create_or_update config_map built
