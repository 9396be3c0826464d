-- ===== src/Controllers/User/Instances/Returning.antt =====
-- That the loop over the target instances never ends in an error.
use postgres_cluster_operato.Kube.Steady.{
  Steady, steady_rules, Steady-pure, Steady-handle, Steady-finally, Steady-bind,
}
use postgres_cluster_operato.Postgres.Client.{Client}
use postgres_cluster_operato.Api.Cluster.{PostgresCluster}
use postgres_cluster_operato.Common.{Option, String, List, ◌∷◌, []}
use postgres_cluster_operato.Api.User.{PostgresUser}
use postgres_cluster_operato.Controllers.User.Instances.{
  reconcile_user_on_instances, configure_instances, configure_user, Progress,
}
use postgres_cluster_operato.Kube.Env.{Env}

module _ ⦃env : Env⦄ where
  configure_user-Steady :
      (u : PostgresUser) (password name : String) (c : Client) (p : Progress)
      → Steady (configure_user u password name c p)
  unfolding configure_user
  configure_user-Steady u password name c p = search steady_rules depth 9

  pub configure_instances-Steady :
      (u : PostgresUser) (c : Option PostgresCluster) (password : String) (names : List String)
      (p : Progress)
      → Steady (configure_instances u c password names p)
  unfolding configure_instances
  configure_instances-Steady u c password [] p = Steady-pure _
  configure_instances-Steady u c password (n ∷ names) p =
      Steady-handle _ _ _ (λ e. configure_instances-Steady u c password names _)
        (λ client. Steady-finally _ _ (
          Steady-bind _ _ (configure_user-Steady u password n client p)
            (λ q. configure_instances-Steady u c password names q)))

  pub instances-Steady :
      (u : PostgresUser) (c : Option PostgresCluster) (names : List String)
      → Steady (reconcile_user_on_instances u c names)
  unfolding reconcile_user_on_instances
  instances-Steady u c names =
      Steady-handle _ _ _ (λ e. Steady-pure _)
        (λ password. configure_instances-Steady u c password names _)
