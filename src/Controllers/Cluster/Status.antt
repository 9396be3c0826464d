-- ===== src/Controllers/Cluster/Status.antt =====
-- `updateStatus`: the readiness of the instances, and the phase of the cluster.
pub mod Tallies
pub mod Summary
pub mod Expected
use postgres_cluster_operato.Common.{
  String, ◌<>◌, ℤ, pos, ◌+ℤ◌, int32, ltb_ℤ, decimal, Bool, true, false, ◌&&◌, Option, none, some,
  List, [], ◌∷◌, ◌++◌, ◌==◌, string_eq, int_eq, if◌then◌else◌,
}
use postgres_cluster_operato.Api.Meta.{namespaced}
use postgres_cluster_operato.Api.Cluster.{
  PostgresCluster, PostgresInstanceSpec, PostgresInstanceStatus, PostgresClusterStatus,
}
use postgres_cluster_operato.Kube.Objects.{StatefulSet}
use postgres_cluster_operato.Kube.Env.{Env, postgres_cluster, stateful_set}
use postgres_cluster_operato.Kube.Action.{Action, ⊤, ◌>>=◌, ◌>>◌, pure, handle, get, update_status}
use postgres_cluster_operato.Controllers.Cluster.Defaults.{get_instance_resource_name}
use postgres_cluster_operato.Controllers.Cluster.Services.{instance_labels}
use postgres_cluster_operato.Controllers.Cluster.Sets.{or_cluster}

-- What the first loop has gathered.
pub record Tally : Type 0 where
  pub statuses : List PostgresInstanceStatus
  pub total_ready : ℤ
  pub current_primary : String

-- The leader of an instance whose stateful set was found: its first pod, if it is a primary with a
-- pod that is ready.
unfoldable pub leader_of : PostgresCluster → PostgresInstanceSpec → StatefulSet → Option String
leader_of cluster instance sts =
    if instance.role == "primary" && ltb_ℤ (pos 0) sts.ready_replicas
    then some (get_instance_resource_name cluster.metadata.name instance.name <> "-0")
    else none

abbrev instance_status :
    PostgresCluster → PostgresInstanceSpec → ℤ → String → PostgresInstanceStatus
instance_status cluster instance ready leader = record {
  name = instance.name;
  ready_replicas = ready;
  role = instance.role;
  current_leader = leader;
  labels = instance_labels cluster instance;
}

-- One round of the first loop, with the answer of `Get` (`none` for any error).
unfoldable pub tally_instance :
    PostgresCluster → PostgresInstanceSpec → Option StatefulSet → Tally → Tally
unfolding leader_of
tally_instance cluster instance none t = record t {
  statuses = t.statuses ++ (instance_status cluster instance (pos 0) "" ∷ []);
}
tally_instance cluster instance (some sts) t = record {
  statuses =
      t.statuses
      ++ (instance_status cluster instance sts.ready_replicas
            (or_cluster (leader_of cluster instance sts) "")
          ∷ []);
  total_ready = int32 (t.total_ready +ℤ sts.ready_replicas);
  current_primary = or_cluster (leader_of cluster instance sts) t.current_primary;
}

-- The second loop.
unfoldable pub expected_replicas : ℤ → List PostgresInstanceSpec → ℤ
expected_replicas total [] = total
expected_replicas total (instance ∷ rest) =
    expected_replicas (int32 (total +ℤ or_cluster instance.replicas (pos 1))) rest

unfoldable pub phase_of : ℤ → ℤ → String
phase_of ready expected =
    if ready == expected then "Running" else if ltb_ℤ (pos 0) ready then "Degraded" else "Pending"

unfoldable pub message_of : ℤ → ℤ → String
message_of ready expected =
    if ready == expected
    then "All instances are ready"
    else if ltb_ℤ (pos 0) ready
    then "Some instances not ready: " <> decimal ready <> "/" <> decimal expected
    else "Waiting for instances: " <> decimal ready <> "/" <> decimal expected <> " ready"

-- The status that is written, from the tally.
unfoldable pub final_status : PostgresCluster → Tally → PostgresClusterStatus
unfolding expected_replicas phase_of message_of
final_status cluster t =
    let expected : ℤ = expected_replicas (pos 0) cluster.spec.instances in
    record (cluster.status) {
      phase = phase_of t.total_ready expected;
      message = message_of t.total_ready expected;
      ready_replicas = t.total_ready;
      current_primary = t.current_primary;
      database_version = cluster.spec.postgres_version;
      instances = t.statuses;
    }

module _ ⦃env : Env⦄ where
  unfoldable pub check_instances :
      PostgresCluster → List PostgresInstanceSpec → Tally → Action Tally
  unfolding tally_instance
  check_instances cluster [] t = pure t
  check_instances cluster (instance ∷ rest) t = do
    found ←
        handle
          (get stateful_set (
            namespaced cluster.metadata.namespace
              (get_instance_resource_name cluster.metadata.name instance.name)))
          (λ _. pure none) (λ sts. pure (some sts))
    check_instances cluster rest (tally_instance cluster instance found t)

  unfoldable pub update_cluster_status : PostgresCluster → Action ⊤
  unfolding check_instances final_status
  update_cluster_status cluster = do
    t ← check_instances cluster cluster.spec.instances (record {
      statuses = [];
      total_ready = pos 0;
      current_primary = cluster.status.current_primary;
    })
    update_status postgres_cluster (record cluster { status = final_status cluster t })
    pure tt
