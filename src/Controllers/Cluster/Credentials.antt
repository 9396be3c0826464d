-- ===== src/Controllers/Cluster/Credentials.antt =====
-- `reconcileSecret`: the passwords of a new cluster.
use postgres_cluster_operato.Common.{String, ◌<>◌, pos, List, [], ◌∷◌, Dict, insert}
use postgres_cluster_operato.Api.Meta.{new_metadata}
use postgres_cluster_operato.Api.Cluster.{PostgresCluster, DatabaseAccess}
use postgres_cluster_operato.Kube.Env.{Env, postgres_cluster, secret}
use postgres_cluster_operato.Kube.Action.{Action, ⊤, ◌>>=◌, pure, within, set_controller_reference}
use postgres_cluster_operato.Kube.Resources.{create_or_update}
use postgres_cluster_operato.Utils.Crypto.{generate_password}

-- The loop that adds the users' passwords to the secret's data.
unfoldable pub add_user_keys : Dict String → Dict String → Dict String
add_user_keys contents [] = contents
add_user_keys contents ((username, password) ∷ users) =
    add_user_keys (insert ("user-" <> username <> "-password") password contents) users

module _ ⦃env : Env⦄ where
  -- The loop over `cluster.Spec.Database.Access`, with the map `dbUsers` so far.
  unfoldable pub user_passwords : Dict String → List DatabaseAccess → Action (Dict String)
  user_passwords users [] = pure users
  user_passwords users (access ∷ rest) = do
    password ←
        within ("failed to generate password for user " <> access.username)
          (generate_password (pos 16))
    user_passwords (insert access.username password users) rest

  unfoldable pub reconcile_secret : PostgresCluster → Action ⊤
  unfolding user_passwords add_user_keys
  reconcile_secret cluster = do
    postgres_password ← within "failed to generate postgres password" (generate_password (pos 16))
    replication_password ←
        within "failed to generate replication password" (generate_password (pos 16))
    db_users ← user_passwords [] cluster.spec.database.access
    built ← set_controller_reference postgres_cluster cluster.metadata secret (record {
      metadata =
          new_metadata (cluster.metadata.name <> "-credentials") cluster.metadata.namespace [];
      contents =
          add_user_keys
            (("postgres-password", postgres_password)
              ∷ ("replication-password", replication_password)
              ∷ [])
            db_users;
    })
    create_or_update secret built
