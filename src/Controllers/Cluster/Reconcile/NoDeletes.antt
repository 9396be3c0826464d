-- ===== src/Controllers/Cluster/Reconcile/NoDeletes.antt =====
-- What `Reconcile` of a cluster may call.
use postgres_cluster_operato.Controllers.Cluster.Defaults.{set_defaults}
use postgres_cluster_operato.Controllers.Cluster.Deletion.{handle_deletion, cluster_finalizer}
use postgres_cluster_operato.Api.Meta.{NamespacedName}
use postgres_cluster_operato.Kube.Action
use postgres_cluster_operato.Common.{
  String, List, [], ◌∷◌, Dict, ◌≡◌, if◌then◌else◌, is_some, none, Bool-cases, inl, arith, inr,
}
use postgres_cluster_operato.Api.Cluster.{PostgresCluster, PostgresInstanceSpec, DatabaseAccess}
use postgres_cluster_operato.Kube.Env.{Env, History, postgres_cluster, ok}
use postgres_cluster_operato.Kube.Emits.{
  Emits, emits_rules, given, DeletesNothing, Returns, Emits-handle_when, Emits-bind_when, Emits-get,
  Emits-if, Emits-pure, Emits-update,
}
use postgres_cluster_operato.Kube.Resources.NoDeletes.{create_or_update-DeletesNothing}
use postgres_cluster_operato.Utils.Crypto.NoDeletes.{generate_password-DeletesNothing}
use postgres_cluster_operato.Controllers.Cluster.Config.{reconcile_config_map}
use postgres_cluster_operato.Controllers.Cluster.Credentials.{user_passwords, reconcile_secret}
use postgres_cluster_operato.Controllers.Cluster.Services.{
  reconcile_instance_service, reconcile_monitoring,
}
use postgres_cluster_operato.Controllers.Cluster.Sets.{
  reconcile_instance, reconcile_instance_stateful_set,
}
use postgres_cluster_operato.Controllers.Cluster.Status.{
  Tally, check_instances, update_cluster_status,
}
use postgres_cluster_operato.Controllers.Cluster.Reconcile.{
  reconcile_instances, reconcile_cluster, reconcile_active, ensure_finalizer, reconcile,
}

ruleset rules = (emits_rules, tt, create_or_update-DeletesNothing, generate_password-DeletesNothing)

module _ ⦃env : Env⦄ where
  config_map-DeletesNothing : (c : PostgresCluster) → Emits DeletesNothing (reconcile_config_map c)
  unfolding reconcile_config_map
  config_map-DeletesNothing c = search rules

  user_passwords-DeletesNothing :
      (users : Dict String) (access : List DatabaseAccess)
      → Emits DeletesNothing (user_passwords users access)
  unfolding user_passwords
  user_passwords-DeletesNothing users [] = search rules
  user_passwords-DeletesNothing users (a ∷ rest) =
      search (rules, λ (u : Dict String). user_passwords-DeletesNothing u rest)

  secret-DeletesNothing : (c : PostgresCluster) → Emits DeletesNothing (reconcile_secret c)
  unfolding reconcile_secret
  secret-DeletesNothing c = search (rules, user_passwords-DeletesNothing) depth 9

  service-DeletesNothing :
      (c : PostgresCluster) (i : PostgresInstanceSpec)
      → Emits DeletesNothing (reconcile_instance_service c i)
  unfolding reconcile_instance_service
  service-DeletesNothing c i = search rules

  stateful_set-DeletesNothing :
      (c : PostgresCluster) (i : PostgresInstanceSpec)
      → Emits DeletesNothing (reconcile_instance_stateful_set c i)
  unfolding reconcile_instance_stateful_set
  stateful_set-DeletesNothing c i = search rules depth 9

  monitoring-DeletesNothing : (c : PostgresCluster) → Emits DeletesNothing (reconcile_monitoring c)
  unfolding reconcile_monitoring
  monitoring-DeletesNothing c = search rules

  instance-DeletesNothing :
      (c : PostgresCluster) (i : PostgresInstanceSpec)
      → Emits DeletesNothing (reconcile_instance c i)
  unfolding reconcile_instance
  instance-DeletesNothing c i = search (rules, service-DeletesNothing, stateful_set-DeletesNothing)

  instances-DeletesNothing :
      (c : PostgresCluster) (is : List PostgresInstanceSpec)
      → Emits DeletesNothing (reconcile_instances c is)
  unfolding reconcile_instances
  instances-DeletesNothing c [] = search rules
  instances-DeletesNothing c (i ∷ is) =
      given (instances-DeletesNothing c is) λ ih. search (rules, instance-DeletesNothing)

  cluster-DeletesNothing : (c : PostgresCluster) → Emits DeletesNothing (reconcile_cluster c)
  unfolding reconcile_cluster
  cluster-DeletesNothing c =
      search
        (
          rules, config_map-DeletesNothing, secret-DeletesNothing, instances-DeletesNothing,
          monitoring-DeletesNothing,
        )
        depth 9

  check_instances-DeletesNothing :
      (c : PostgresCluster) (is : List PostgresInstanceSpec) (t : Tally)
      → Emits DeletesNothing (check_instances c is t)
  unfolding check_instances
  check_instances-DeletesNothing c [] t = search rules
  check_instances-DeletesNothing c (i ∷ is) t =
      search (rules, λ (t : Tally). check_instances-DeletesNothing c is t)

  pub status-DeletesNothing : (c : PostgresCluster) → Emits DeletesNothing (update_cluster_status c)
  unfolding update_cluster_status
  status-DeletesNothing c = search (rules, check_instances-DeletesNothing)

  reconcile_active-DeletesNothing :
      (c : PostgresCluster) → Emits DeletesNothing (reconcile_active c)
  unfolding reconcile_active
  reconcile_active-DeletesNothing c =
      search (rules, cluster-DeletesNothing, status-DeletesNothing) depth 7

-- The server knows of no deletion of the cluster.
pub record IsUnmarked (env : Env) (key : NamespacedName) : Type 0 where
  pub on_get :
      (h : History) (c : PostgresCluster)
      → env.on_get h postgres_cluster key ≡ ok c
      → c.metadata.deletion_timestamp ≡ none
  pub on_update :
      (h : History) (c c' : PostgresCluster)
      → env.on_update h postgres_cluster c ≡ ok c'
      → c'.metadata.deletion_timestamp ≡ none

module _ ⦃env : Env⦄ where
  abbrev pub IsLive : PostgresCluster → Type 0
  IsLive c = c.metadata.deletion_timestamp ≡ none

  pub get-IsLive :
      (key : NamespacedName) → IsUnmarked env key → Returns IsLive (Action.get postgres_cluster key)
  unfolding Action.get
  get-IsLive key u = record { at = u.on_get }

  pub ensure_finalizer-IsLive :
      (key : NamespacedName) (c : PostgresCluster)
      → IsUnmarked env key
      → IsLive c
      → Returns IsLive (ensure_finalizer c)
  unfolding ensure_finalizer Action.pure Action.update
  ensure_finalizer-IsLive key c u live =
      elim (Bool-cases (env.contains_finalizer c.metadata cluster_finalizer)) [
        | inl old ↦ rw old (record { at = λ h a e. ground arith })
        | inr new ↦ rw new (record { at = λ h a e. u.on_update h _ a e })
      ]

  dispatch-DeletesNothing :
      (c : PostgresCluster)
      → IsLive c
      → Emits DeletesNothing (
          if is_some c.metadata.deletion_timestamp
          then handle_deletion c
          else reconcile_active (set_defaults c))
  dispatch-DeletesNothing c live = simp live (reconcile_active-DeletesNothing (set_defaults c))

  -- Reconcile of a cluster makes no delete call, where the server's answers for it carry no
  -- deletion timestamp.
  reconcile-DeletesNothing :
      (key : NamespacedName) → IsUnmarked env key → Emits DeletesNothing (reconcile key)
  unfolding reconcile
  reconcile-DeletesNothing key u =
      Emits-handle_when IsLive _ _ _ (get-IsLive key u)
        (Emits-get {P = DeletesNothing} postgres_cluster key tt) (λ e. search rules)
        λ found live.
          Emits-bind_when IsLive _ _ (ensure_finalizer-IsLive key found u live)
            (unfold ensure_finalizer in
              Emits-if _ _ _ (Emits-pure _)
                (Emits-update {P = DeletesNothing} postgres_cluster _ tt))
            dispatch-DeletesNothing
