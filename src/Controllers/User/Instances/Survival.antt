-- ===== src/Controllers/User/Instances/Survival.antt =====
-- That the loop over the target instances does not panic.
use postgres_cluster_operato.Kube.Emits.{given}
use postgres_cluster_operato.Kube.Calm.{IsCalm, Calm, calm_rules, Calm-handle, Calm-pure}
use postgres_cluster_operato.Common.{List, String, ℤ, ◌≡◌, some, ◌∷◌, []}
use postgres_cluster_operato.Api.Cluster.{PostgresCluster}
use postgres_cluster_operato.Api.User.{PostgresUser, PasswordSpec}
use postgres_cluster_operato.Controllers.User.Instances.{
  configure_user, configure_instances, reconcile_user_on_instances, Progress,
}
use postgres_cluster_operato.Postgres.Client.{
  new_client_for_instance, set_connection_limit, grant_privileges, create_or_update_user, Client,
}
use postgres_cluster_operato.Controllers.User.Password.{get_password_from_secret, read_password}
use postgres_cluster_operato.Kube.Env.{Env}

module _ ⦃env : Env⦄ where
  pub client-Calm :
      (c : PostgresCluster) (name : String) → IsCalm env → Calm (new_client_for_instance c name)
  unfolding new_client_for_instance
  client-Calm c name k = search calm_rules depth 9

  grants-Calm :
      (c : Client) (username : String) (privileges : List String)
      → IsCalm env
      → Calm (grant_privileges c username privileges)
  unfolding grant_privileges
  grants-Calm c username [] k = search calm_rules
  grants-Calm c username (p ∷ ps) k =
      given (grants-Calm c username ps k) λ ih. search calm_rules depth 7

  create_user-Calm :
      (c : Client) (username password : String) (privileges : List String)
      → IsCalm env
      → Calm (create_or_update_user c username password privileges)
  unfolding create_or_update_user
  create_user-Calm c username password privileges k = search (calm_rules, grants-Calm) depth 9

  limit-Calm :
      (c : Client) (username : String) (limit : ℤ)
      → IsCalm env
      → Calm (set_connection_limit c username limit)
  unfolding set_connection_limit
  limit-Calm c username limit k = search calm_rules depth 9

  configure_user-Calm :
      (u : PostgresUser) (password name : String) (c : Client) (p : Progress)
      → IsCalm env
      → Calm (configure_user u password name c p)
  unfolding configure_user
  configure_user-Calm u password name c p k =
      search (calm_rules, create_user-Calm, limit-Calm) depth 9

  configure_instances-Calm :
      (u : PostgresUser) (c : PostgresCluster) (password : String) (names : List String)
      (p : Progress)
      → IsCalm env
      → Calm (configure_instances u (some c) password names p)
  unfolding configure_instances
  configure_instances-Calm u c password [] p k = search calm_rules
  configure_instances-Calm u c password (name ∷ names) p k =
      search
        (
          calm_rules,
          client-Calm,
          configure_user-Calm,
          λ (p : Progress). configure_instances-Calm u c password names p k,
        )
        depth 9

  read_password-Calm :
      (u : PostgresUser) (name key : String) → IsCalm env → Calm (read_password u name key)
  unfolding read_password
  read_password-Calm u name key k = search calm_rules depth 9

  get_password-Calm :
      (u : PostgresUser) (spec : PasswordSpec)
      → IsCalm env
      → u.spec.password ≡ some spec
      → Calm (get_password_from_secret u)
  unfolding get_password_from_secret
  get_password-Calm u spec k e = simp e (search (calm_rules, read_password-Calm) depth 9)

  -- Where the world does not panic, a cluster was read and the user has a password configuration,
  -- reconcileUserOnInstances does not panic, whichever calls fail.
  pub reconcile_user_on_instances-Calm :
      (u : PostgresUser) (c : PostgresCluster) (targets : List String) (spec : PasswordSpec)
      → IsCalm env
      → u.spec.password ≡ some spec
      → Calm (reconcile_user_on_instances u (some c) targets)
  unfolding reconcile_user_on_instances
  reconcile_user_on_instances-Calm u c targets spec k e =
      Calm-handle _ _ _ (get_password-Calm u spec k e) (λ x. Calm-pure _)
        λ password. configure_instances-Calm u c password targets _ k
