-- ===== src/Postgres/Client/Provisions.antt =====
-- What the database client may call where it sets a user up.
use postgres_cluster_operato.Kube.Action.{error}
use postgres_cluster_operato.Api.Cluster.{PostgresCluster}
use postgres_cluster_operato.Postgres.Client.{
  new_client_for_instance, set_connection_limit, grant_privileges, close, create_or_update_user,
  Client,
}
use postgres_cluster_operato.Common.{
  String, ◌<>◌, ℤ, List, ◌∷◌, [], decimal, ◌==◌, ltb_ℤ, negsuc, string_eq,
}
use postgres_cluster_operato.Kube.Env.{Env, Call, a_user}
use postgres_cluster_operato.Kube.Emits.{
  emits_rules, Emits, Emits-handle, Emits-pure, Emits-if, Emits-raise, Emits-sql_exec, Emits-bind,
}
use postgres_cluster_operato.Kube.Action

-- The statements that make a user, change it, or grant it something.
pub data IsProvision (quoted : String → String) : String → Type 0 where
  new_password :
      (user : String) → IsProvision quoted ("ALTER USER " <> quoted user <> " WITH PASSWORD $1")
  new_user :
      (user : String) → IsProvision quoted ("CREATE USER " <> quoted user <> " WITH PASSWORD $1")
  new_limit :
      (user limit : String)
      → IsProvision quoted ("ALTER USER " <> quoted user <> " WITH CONNECTION LIMIT " <> limit)
  new_grant :
      (privilege user : String)
      → IsProvision quoted ("GRANT " <> privilege <> " TO " <> quoted user)

-- On the server a user and its status are updated and secrets are written; on the databases
-- nothing is executed but the statements above.
abbrev pub Provisions : Env → Call → Type 0
Provisions env (Call.create o) = ⊥
Provisions env (Call.update (a_user u)) = Unit
Provisions env (Call.update _) = ⊥
Provisions env (Call.update_status (a_user u)) = Unit
Provisions env (Call.update_status _) = ⊥
Provisions env (Call.delete k key) = ⊥
Provisions env (Call.sql_exec c q args) = IsProvision env.quote_identifier q
Provisions env _ = Unit

ruleset rules = (emits_rules, tt)

module _ ⦃env : Env⦄ where
  pub new_client-Provisions :
      (c : PostgresCluster) (name : String)
      → Emits (Provisions env) (new_client_for_instance c name)
  unfolding new_client_for_instance
  new_client-Provisions c name = search rules depth 9

  statement-Provisions :
      (context conn q : String) (args : List String)
      → IsProvision env.quote_identifier q
      → Emits (Provisions env) (Action.within context (Action.sql_exec conn q args))
  statement-Provisions context conn q args i =
      Emits-handle _ _ _ (Emits-sql_exec conn q args i) (λ e. Emits-raise _) (λ a. Emits-pure _)

  grant_privileges-Provisions :
      (c : Client) (username : String) (ps : List String)
      → Emits (Provisions env) (grant_privileges c username ps)
  unfolding grant_privileges
  grant_privileges-Provisions c username [] = Emits-pure _
  grant_privileges-Provisions c username (p ∷ ps) =
      Emits-bind _ _ (statement-Provisions _ _ _ _ (new_grant p username))
        (λ _. grant_privileges-Provisions c username ps)

  pub create_or_update_user-Provisions :
      (c : Client) (username password : String) (ps : List String)
      → Emits (Provisions env) (create_or_update_user c username password ps)
  unfolding create_or_update_user
  create_or_update_user-Provisions c username password ps = Emits-if _ _ _ (Emits-raise _) (
      Emits-bind _ _ (search rules) λ exists.
        Emits-bind _ _
          (Emits-if exists _ _ (statement-Provisions _ _ _ _ (new_password username))
            (statement-Provisions _ _ _ _ (new_user username)))
          (λ _. grant_privileges-Provisions c username ps))

  pub set_connection_limit-Provisions :
      (c : Client) (username : String) (limit : ℤ)
      → Emits (Provisions env) (set_connection_limit c username limit)
  unfolding set_connection_limit
  set_connection_limit-Provisions c username limit =
      Emits-if (username == "") _ _ (Emits-raise (error "username cannot be empty")) (
        Emits-if (ltb_ℤ limit (negsuc 0)) _ _ (Emits-raise _) (
          statement-Provisions ("failed to set connection limit for user " <> username) c.db _ []
            (new_limit username (decimal limit))))

  pub close-Provisions : (c : Client) → Emits (Provisions env) (close c)
  unfolding close
  close-Provisions c = search rules
