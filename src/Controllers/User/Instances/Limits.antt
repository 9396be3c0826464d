-- ===== src/Controllers/User/Instances/Limits.antt =====
-- What a negative connection limit does.
use postgres_cluster_operato.Kube.Emits.{
  Emits, Emits-pure, Emits-handle, Emits-if, Emits-sql_exec, Emits-raise, Emits-bind, emits_rules,
  Emits-now,
}
use postgres_cluster_operato.Api.User.{PostgresUser}
use postgres_cluster_operato.Controllers.User.Instances.{configure_user, Progress}
use postgres_cluster_operato.Postgres.Client.{create_or_update_user, grant_privileges, Client}
use postgres_cluster_operato.Common.{String, List, ◌<>◌, ◌∷◌, ltb_ℤ, pos, ◌≡◌, [], true}
use postgres_cluster_operato.Kube.Env.{Env, Call}
use postgres_cluster_operato.Kube.Action

-- The statements that leave a connection limit as it is.
pub data IsAccess (quoted : String → String) : String → Type 0 where
  access_password :
      (user : String) → IsAccess quoted ("ALTER USER " <> quoted user <> " WITH PASSWORD $1")
  access_user :
      (user : String) → IsAccess quoted ("CREATE USER " <> quoted user <> " WITH PASSWORD $1")
  access_grant :
      (privilege user : String) → IsAccess quoted ("GRANT " <> privilege <> " TO " <> quoted user)

abbrev pub LeavesLimits : Env → Call → Type 0
LeavesLimits env (Call.sql_exec c q args) = IsAccess env.quote_identifier q
LeavesLimits env _ = Unit

module _ ⦃env : Env⦄ where
  statement-LeavesLimits :
      (context conn q : String) (args : List String)
      → IsAccess env.quote_identifier q
      → Emits (LeavesLimits env) (Action.within context (Action.sql_exec conn q args))
  statement-LeavesLimits context conn q args i =
      Emits-handle _ _ _ (Emits-sql_exec conn q args i) (λ e. Emits-raise _) (λ a. Emits-pure _)

  grant-LeavesLimits :
      (c : Client) (username : String) (ps : List String)
      → Emits (LeavesLimits env) (grant_privileges c username ps)
  unfolding grant_privileges
  grant-LeavesLimits c username [] = Emits-pure _
  grant-LeavesLimits c username (p ∷ ps) =
      Emits-bind _ _ (statement-LeavesLimits _ _ _ _ (access_grant p username))
        (λ _. grant-LeavesLimits c username ps)

  user-LeavesLimits :
      (c : Client) (username password : String) (ps : List String)
      → Emits (LeavesLimits env) (create_or_update_user c username password ps)
  unfolding create_or_update_user
  user-LeavesLimits c username password ps = Emits-if _ _ _ (Emits-raise _) (
      Emits-bind _ _ (search (emits_rules, tt)) λ exists.
        Emits-bind _ _
          (Emits-if exists _ _ (statement-LeavesLimits _ _ _ _ (access_password username))
            (statement-LeavesLimits _ _ _ _ (access_user username)))
          (λ _. grant-LeavesLimits c username ps))

  -- For a user with a negative connection limit, -1 for no limit included, the round on an
  -- instance executes only statements that alter or create a user with a password or grant a
  -- privilege, and none that sets the limit.
  pub configure_user-LeavesLimits :
      (u : PostgresUser) (password name : String) (c : Client) (p : Progress)
      → ltb_ℤ u.spec.connection_limit (pos 0) ≡ true
      → Emits (LeavesLimits env) (configure_user u password name c p)
  unfolding configure_user
  configure_user-LeavesLimits u password name c p negative =
      Emits-handle _ _ _ (user-LeavesLimits c u.spec.username password u.spec.privileges)
        (λ e. Emits-pure _)
        (λ _. simp negative (
          Emits-handle _ _ _ (Emits-pure _) (λ e. Emits-pure _)
            (λ _. Emits-bind _ _ (Emits-now tt) (λ at. Emits-pure _))))
