-- ===== src/Controllers/User/Targets.antt =====
-- `getCluster` and `getTargetInstances`. A cluster that could not be read is the nil pointer, `none`.
pub mod Selection
use postgres_cluster_operato.Common.{
  String, ◌<>◌, Bool, Option, List, [], ◌∷◌, map, ◌==◌, string_eq, if◌then◌else◌, is_empty,
}
use postgres_cluster_operato.Api.Meta.{LabelSelector, namespaced}
use postgres_cluster_operato.Api.Selectors.{InstanceSelector}
use postgres_cluster_operato.Api.Cluster.{PostgresCluster, PostgresInstanceStatus}
use postgres_cluster_operato.Api.User.{PostgresUser}
use postgres_cluster_operato.Kube.Env.{Env, postgres_cluster}
use postgres_cluster_operato.Kube.Action.{
  Action, ◌>>=◌, pure, raise, error, lift, deref, option, within, get,
}

-- The loop that keeps the names of the instances that pass a test.
abbrev pub names_where : (PostgresInstanceStatus → Bool) → List PostgresInstanceStatus → List String
names_where test [] = []
names_where test (instance ∷ rest) =
    let names = names_where test rest in if test instance then instance.name ∷ names else names

abbrev pub instance_names : List PostgresInstanceStatus → List String
instance_names = map (λ i. i.name)

module _ ⦃env : Env⦄ where
  unfoldable pub get_cluster : PostgresUser → Action PostgresCluster
  get_cluster user = do
    ref ← deref user.spec.cluster_ref
    get postgres_cluster (
        namespaced (if ref.namespace == "" then user.metadata.namespace else ref.namespace)
          ref.name)

  -- `cluster.Status.Instances`
  unfoldable pub all_instances : Option PostgresCluster → Action (List PostgresInstanceStatus)
  all_instances cluster = do c ← deref cluster; pure c.status.instances

  -- The error of a selector that matches nothing.
  unfoldable pub some_names : String → List String → Action (List String)
  some_names message [] = raise (error message)
  some_names message (name ∷ rest) = pure (name ∷ rest)

  unfoldable pub by_role : String → Option PostgresCluster → Action (List String)
  unfolding all_instances some_names
  by_role role cluster = do
    instances ← all_instances cluster
    some_names ("no instances found with role " <> role)
        (names_where (λ i. i.role == role) instances)

  unfoldable pub by_labels : LabelSelector → Option PostgresCluster → Action (List String)
  unfolding all_instances some_names
  by_labels labels cluster = do
    selects ← within "invalid label selector" (lift (env.selector_of labels))
    instances ← all_instances cluster
    some_names "no instances match label selector" (names_where (λ i. selects i.labels) instances)

  unfoldable pub every_instance : Option PostgresCluster → Action (List String)
  unfolding all_instances
  every_instance cluster = do instances ← all_instances cluster; pure (instance_names instances)

  unfoldable pub by_selector : InstanceSelector → Option PostgresCluster → Action (List String)
  unfolding by_role by_labels every_instance
  by_selector selector cluster =
      if is_empty selector.names
      then if selector.role == ""
        then option selector.label_selector (every_instance cluster)
            (λ labels. by_labels labels cluster)
        else by_role selector.role cluster
      else pure selector.names

  unfoldable pub get_target_instances : PostgresUser → Option PostgresCluster → Action (List String)
  unfolding by_selector every_instance
  get_target_instances user cluster =
      option user.spec.instance_selector (every_instance cluster)
        (λ selector. by_selector selector cluster)
