-- ===== src/Controllers/User/Instances.antt =====
-- `reconcileUserOnInstances`: the user on each target instance.
pub mod Returning
pub mod Coverage
pub mod Survival
pub mod Limits
use postgres_cluster_operato.Common.{
  String, ◌<>◌, ℤ, pos, ltb_ℤ, Bool, true, false, not, Option, none, some, List, [], ◌∷◌, ◌++◌,
  if◌then◌else◌,
}
use postgres_cluster_operato.Api.Meta.{Time}
use postgres_cluster_operato.Api.Cluster.{PostgresCluster}
use postgres_cluster_operato.Api.User.{PostgresUser, UserInstanceStatus}
use postgres_cluster_operato.Kube.Env.{Env, Error}
use postgres_cluster_operato.Kube.Action.{
  Action, ⊤, ◌>>=◌, ◌>>◌, pure, raise, wrap_error, deref, handle, within, when, finally, now,
}
use postgres_cluster_operato.Postgres.Client.{
  Client, new_client_for_instance, create_or_update_user, set_connection_limit, close,
}
use postgres_cluster_operato.Controllers.User.Password.{get_password_from_secret}

-- What the loop has gathered: `instanceStatuses` and `reconcileErr`.
pub record Progress : Type 0 where
  pub statuses : List UserInstanceStatus
  pub failure : Option Error

abbrev not_ready : String → String → UserInstanceStatus
not_ready name message = record {
  name = name;
  ready = false;
  message = message;
  last_updated = none;
}

abbrev configured : String → Time → UserInstanceStatus
configured name at = record {
  name = name;
  ready = true;
  message = "User successfully configured";
  last_updated = some at;
}

-- `append` of a status that is not ready; the latest error is the one that is kept.
abbrev failed_on : String → String → Error → Progress → Progress
failed_on name context e p = record {
  statuses = p.statuses ++ (not_ready name (context <> ": " <> e.message) ∷ []);
  failure = some (wrap_error ("failed on instance " <> name) e);
}

module _ ⦃env : Env⦄ where
  -- A round of the loop, once the client is open.
  unfoldable pub configure_user :
      PostgresUser → String → String → Client → Progress → Action Progress
  configure_user user password name c p =
      handle (create_or_update_user c user.spec.username password user.spec.privileges)
        (λ e. pure (failed_on name "Failed to create/update user" e p))
        (λ _.
          handle
            (when (not (ltb_ℤ user.spec.connection_limit (pos 0)))
              (set_connection_limit c user.spec.username user.spec.connection_limit))
            (λ e. pure (failed_on name "Failed to set connection limit" e p))
            (λ _. do
              at ← now
              pure (record p { statuses = p.statuses ++ (configured name at ∷ []) })))

  -- The loop. The deferred `Close` of each round runs when the function returns.
  unfoldable pub configure_instances :
      PostgresUser → Option PostgresCluster → String → List String → Progress → Action Progress
  unfolding configure_user
  configure_instances user cluster password [] p = pure p
  configure_instances user cluster password (name ∷ rest) p =
      handle (deref cluster >>= λ c. new_client_for_instance c name)
        (λ e.
          configure_instances user cluster password rest
            (failed_on name "Failed to connect to instance" e p))
        (λ client.
          finally
            (configure_user user password name client p
              >>= configure_instances user cluster password rest)
            (close client))

  unfoldable pub reconcile_user_on_instances :
      PostgresUser → Option PostgresCluster → List String → Action Progress
  unfolding configure_instances
  reconcile_user_on_instances user cluster targets =
      handle (get_password_from_secret user)
        (λ e.
          pure (record { statuses = []; failure = some (wrap_error "failed to get password" e) }))
        (λ password.
          configure_instances user cluster password targets
            (record { statuses = []; failure = none }))
