-- ===== src/Controllers/Cluster/Reconcile/OwnNamespace.antt =====
-- Where `Reconcile` of a cluster writes.
use postgres_cluster_operato.Utils.Crypto.Draws.{generate_password-Emits}
use postgres_cluster_operato.Kube.Pods.{Quantity}
use postgres_cluster_operato.Controllers.Cluster.Status.{
  update_cluster_status, check_instances, Tally,
}
use postgres_cluster_operato.Controllers.Cluster.Reconcile.{
  reconcile_cluster, reconcile_instances, reconcile_active,
}
use postgres_cluster_operato.Common.{String, Dict, ℤ, List, pos, ◌∷◌, [], refl, ◌≡◌, arith}
use postgres_cluster_operato.Kube.Namespaces.{
  KeepsNamespace, InNamespace, owned-In, owned_within-In,
}
use postgres_cluster_operato.Controllers.Cluster.Sets.{
  reconcile_instance_stateful_set, instance_stateful_set, reconcile_instance,
}
use postgres_cluster_operato.Utils.Crypto.{generate_password}
use postgres_cluster_operato.Controllers.Cluster.Config.{reconcile_config_map}
use postgres_cluster_operato.Controllers.Cluster.Credentials.{reconcile_secret, user_passwords}
use postgres_cluster_operato.Controllers.Cluster.Services.{
  reconcile_instance_service, reconcile_monitoring, metrics_service, instance_service,
}
use postgres_cluster_operato.Api.Cluster.{PostgresCluster, PostgresInstanceSpec, DatabaseAccess}
use postgres_cluster_operato.Kube.Env.{
  Env, Call, config_map, service, secret, stateful_set, postgres_cluster,
}
use postgres_cluster_operato.Kube.Emits.{
  emits_rules, Emits, Emits-bind, Emits-handle, Emits-lift, Emits-raise, Emits-pure, Emits-if,
  Emits-update, Emits-when, Emits-update_status,
}
use postgres_cluster_operato.Kube.Action

ruleset rules = (emits_rules, tt)

service-namespace :
    (c : PostgresCluster) (i : PostgresInstanceSpec)
    → (instance_service c i).metadata.namespace ≡ c.metadata.namespace
unfolding instance_service
service-namespace c i = ground arith

set-namespace :
    (c : PostgresCluster) (i : PostgresInstanceSpec) (cpu memory size : Quantity)
    → (instance_stateful_set c i cpu memory size).metadata.namespace ≡ c.metadata.namespace
unfolding instance_stateful_set
set-namespace c i cpu memory size = refl

metrics-namespace :
    (c : PostgresCluster) → (metrics_service c).metadata.namespace ≡ c.metadata.namespace
unfolding metrics_service
metrics-namespace c = refl

module _ ⦃env : Env⦄ where
  abbrev Own : PostgresCluster → Call → Type 0
  Own c = InNamespace c.metadata.namespace

  within-Own :
      {A : Type 0} (c : PostgresCluster) (context : String) (m : Action.Action A)
      → Emits (Own c) m
      → Emits (Own c) (Action.within context m)
  within-Own c context m e = Emits-handle _ _ _ e (λ x. Emits-raise _) (λ a. Emits-pure _)

  password-Own : (ns : String) (n : ℤ) → Emits (InNamespace ns) (generate_password n)
  password-Own ns = generate_password-Emits (λ k. tt)

  passwords-Own :
      (ns : String) (users : Dict String) (access : List DatabaseAccess)
      → Emits (InNamespace ns) (user_passwords users access)
  unfolding user_passwords
  passwords-Own ns users [] = search rules
  passwords-Own ns users (a ∷ rest) =
      search (rules, password-Own, λ (u : Dict String). passwords-Own ns u rest) depth 7

  config_map-Own :
      (c : PostgresCluster) → KeepsNamespace env → Emits (Own c) (reconcile_config_map c)
  unfolding reconcile_config_map
  config_map-Own c k = owned-In _ _ config_map _ c.metadata.namespace k refl

  secret-Own : (c : PostgresCluster) → KeepsNamespace env → Emits (Own c) (reconcile_secret c)
  unfolding reconcile_secret
  secret-Own c k =
      Emits-bind _ _ (within-Own c _ _ (password-Own c.metadata.namespace (pos 16))) λ p.
        Emits-bind _ _ (within-Own c _ _ (password-Own c.metadata.namespace (pos 16))) λ q.
          Emits-bind _ _ (passwords-Own c.metadata.namespace [] c.spec.database.access)
            λ users. owned-In _ _ secret _ c.metadata.namespace k refl

  service-Own :
      (c : PostgresCluster) (i : PostgresInstanceSpec)
      → KeepsNamespace env
      → Emits (Own c) (reconcile_instance_service c i)
  unfolding reconcile_instance_service
  service-Own c i k = owned-In _ _ service _ c.metadata.namespace k (service-namespace c i)

  stateful_set-Own :
      (c : PostgresCluster) (i : PostgresInstanceSpec)
      → KeepsNamespace env
      → Emits (Own c) (reconcile_instance_stateful_set c i)
  unfolding reconcile_instance_stateful_set
  stateful_set-Own c i k = Emits-bind _ _ (within-Own c _ _ (Emits-lift _)) λ cpu.
      Emits-bind _ _ (within-Own c _ _ (Emits-lift _)) λ memory.
        Emits-bind _ _ (Emits-handle _ _ _ (Emits-lift _) (λ x. Emits-lift _) (λ q. Emits-pure _))
          λ size.
            owned_within-In _ _ stateful_set _ c.metadata.namespace _ _ k
              (set-namespace c i cpu memory size)

  monitoring-Own :
      (c : PostgresCluster) → KeepsNamespace env → Emits (Own c) (reconcile_monitoring c)
  unfolding reconcile_monitoring
  monitoring-Own c k =
      Emits-if _ _ _ (owned-In _ _ service _ c.metadata.namespace k (metrics-namespace c))
        (Emits-pure _)

  instance-Own :
      (c : PostgresCluster) (i : PostgresInstanceSpec)
      → KeepsNamespace env
      → Emits (Own c) (reconcile_instance c i)
  unfolding reconcile_instance
  instance-Own c i k = Emits-bind _ _ (service-Own c i k) (λ _. stateful_set-Own c i k)

  instances-Own :
      (c : PostgresCluster) (is : List PostgresInstanceSpec)
      → KeepsNamespace env
      → Emits (Own c) (reconcile_instances c is)
  unfolding reconcile_instances
  instances-Own c [] k = Emits-pure _
  instances-Own c (i ∷ is) k =
      Emits-bind _ _ (within-Own c _ _ (instance-Own c i k)) (λ _. instances-Own c is k)

  cluster-Own : (c : PostgresCluster) → KeepsNamespace env → Emits (Own c) (reconcile_cluster c)
  unfolding reconcile_cluster
  cluster-Own c k = Emits-bind _ _ (within-Own c _ _ (config_map-Own c k)) λ _.
      Emits-bind _ _ (within-Own c _ _ (secret-Own c k)) λ _.
        Emits-bind _ _ (instances-Own c c.spec.instances k)
          λ _. Emits-when _ _ (within-Own c _ _ (monitoring-Own c k))

  check-Own :
      (c : PostgresCluster) (is : List PostgresInstanceSpec) (t : Tally)
      → Emits (Own c) (check_instances c is t)
  unfolding check_instances
  check-Own c [] t = search rules
  check-Own c (i ∷ is) t = search (rules, λ (t : Tally). check-Own c is t)

  status-Own : (c : PostgresCluster) → Emits (Own c) (update_cluster_status c)
  unfolding update_cluster_status
  status-Own c = Emits-bind _ _ (check-Own c c.spec.instances _) λ t.
      Emits-bind _ _ (Emits-update_status {P = Own c} postgres_cluster _ refl) (λ _. Emits-pure _)

  -- Where SetControllerReference leaves the namespace of an object as it is, a reconciliation of a
  -- cluster that is not being deleted, from its defaults on, creates, updates and deletes objects
  -- only in the cluster's own namespace.
  pub reconcile_active-InNamespace :
      (c : PostgresCluster)
      → KeepsNamespace env
      → Emits (InNamespace c.metadata.namespace) (reconcile_active c)
  unfolding reconcile_active
  reconcile_active-InNamespace c k =
      Emits-if _ _ _
        (Emits-bind _ _ (Emits-update {P = Own c} postgres_cluster _ refl) (λ _. Emits-pure _))
        (Emits-bind _ _ (cluster-Own c k) λ _. Emits-bind _ _ (status-Own c) (λ _. Emits-pure _))
