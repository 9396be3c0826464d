-- ===== src/Controllers/User/Reconcile.antt =====
-- `Reconcile` and `handleDeletion` of a user.
pub mod Provisions
pub mod NoDeletes
pub mod Failures
pub mod Marked
pub mod Release
pub mod Reports
use postgres_cluster_operato.Common.{
  String, ◌<>◌, Bool, true, false, Option, none, some, List, [], ◌∷◌, ◌==◌, string_eq,
  if◌then◌else◌, is_some,
}
use postgres_cluster_operato.Api.Meta.{NamespacedName}
use postgres_cluster_operato.Api.Cluster.{PostgresCluster}
use postgres_cluster_operato.Api.User.{PostgresUser, PostgresUserStatus, UserInstanceStatus}
use postgres_cluster_operato.Kube.Env.{Env, Error, postgres_user}
use postgres_cluster_operato.Kube.Action.{
  Action, ⊤, Requeue, no_requeue, ◌>>=◌, ◌>>◌, pure, raise, deref, handle, option, within, finally,
  get, update,
}
use postgres_cluster_operato.Postgres.Client.{new_client_for_instance, drop_user, close}
use postgres_cluster_operato.Controllers.User.Targets.{get_cluster, get_target_instances}
use postgres_cluster_operato.Controllers.User.Password.{reconcile_password_secret}
use postgres_cluster_operato.Controllers.User.Instances.{Progress, reconcile_user_on_instances}
use postgres_cluster_operato.Controllers.User.Status.{brief_status, update_user_status}

abbrev pub user_finalizer : String
user_finalizer = "database.example.com/postgres-user"

-- `%v` of an error, which may be nil
abbrev show_error : Option Error → String
show_error none = "<nil>"
show_error (some e) = e.message

-- The status at the end of `Reconcile`.
abbrev pub final_status : PostgresUser → Progress → PostgresUserStatus
final_status user p = record {
  phase = elim p.failure [ none ↦ "Ready" | some e ↦ "Failed" ];
  message = elim p.failure [ none ↦ "User successfully configured" | some e ↦ e.message ];
  conditions = [];
  last_password_change = user.status.last_password_change;
  databases_granted = [];
  instance_statuses = p.statuses;
}

module _ ⦃env : Env⦄ where
  -- The loop that drops the user where it is ready, and then the rest of the function, after
  -- which the deferred `Close` calls run. The errors of a drop are only logged.
  unfoldable pub drop_then {ℓ} :
      {A : Type ℓ} → PostgresUser → PostgresCluster → List UserInstanceStatus → Action A → Action A
  drop_then user cluster [] rest = rest
  drop_then user cluster (s ∷ statuses) rest =
      if s.ready
      then handle (new_client_for_instance cluster s.name)
          (λ _. drop_then user cluster statuses rest)
          (λ client.
            finally
              (handle (drop_user client user.spec.username) (λ _. pure tt) pure
                >> drop_then user cluster statuses rest)
              (close client))
      else drop_then user cluster statuses rest

  unfoldable pub release : PostgresUser → Action Requeue
  release user = do
    update postgres_user
        (record user { metadata = env.remove_finalizer user.metadata user_finalizer })
    pure no_requeue

  unfoldable pub handle_user_deletion : PostgresUser → Action Requeue
  unfolding drop_then release
  handle_user_deletion user =
      if user.status.phase == "Ready"
      then handle (get_cluster user) (λ _. release user)
          (λ cluster. drop_then user cluster user.status.instance_statuses (release user))
      else release user

  -- `updateStatus` with the phase Failed, and then `return ctrl.Result{}, err`
  unfoldable pub fail_with : PostgresUser → String → Error → Action Requeue
  fail_with user message e = update_user_status user (brief_status "Failed" message) >> raise e

  -- The last part of `Reconcile`, from `reconcileUserOnInstances` on.
  unfoldable pub reconcile_targets :
      PostgresUser → Option PostgresCluster → List String → Action Requeue
  reconcile_targets user cluster targets = do
    p ← reconcile_user_on_instances user cluster targets
    within "failed to update status" (update_user_status user (final_status user p))
    option p.failure (pure (record { requeue = false; after_minutes = 30 })) raise

  -- The part from `getTargetInstances` on.
  unfoldable pub reconcile_access : PostgresUser → Option PostgresCluster → Action Requeue
  unfolding fail_with reconcile_targets
  reconcile_access user cluster =
      handle (get_target_instances user cluster)
        (λ e. (do
          ref ← deref user.spec.cluster_ref
          fail_with user
              ("Failed to get target instances for cluster " <> ref.name <> ": " <> e.message) e))
        (λ targets.
          handle (reconcile_password_secret user)
            (λ e. (do
              ref ← deref user.spec.cluster_ref
              fail_with user
                  ("Failed to reconcile password secret for cluster " <> ref.name <> ": "
                    <> e.message)
                  e))
            (λ user. reconcile_targets user cluster targets))

  -- The part below `getCluster`, with the nil pointer where that failed. The status is written
  -- whether it failed or not, as in the source, where the `if` tests the error of the update.
  unfoldable pub reconcile_with_cluster :
      PostgresUser → Option PostgresCluster → Option Error → Action Requeue
  unfolding reconcile_access
  reconcile_with_cluster user cluster failure = do
    ref ← deref user.spec.cluster_ref
    user ←
        update_user_status user (
          brief_status "Failed"
            ("Failed to get cluster " <> ref.name <> ": " <> show_error failure))
    reconcile_access user cluster

  unfoldable pub reconcile_user : NamespacedName → Action Requeue
  unfolding reconcile_with_cluster handle_user_deletion
  reconcile_user key =
      handle (get postgres_user key) (λ e. if e.not_found then pure no_requeue else raise e)
        (λ user.
          if env.contains_finalizer user.metadata user_finalizer
          then if is_some user.metadata.deletion_timestamp
            then handle_user_deletion user
            else handle (get_cluster user) (λ e. reconcile_with_cluster user none (some e))
                (λ cluster. reconcile_with_cluster user (some cluster) none)
          else (do
            update postgres_user
                (record user { metadata = env.add_finalizer user.metadata user_finalizer })
            pure (record { requeue = true; after_minutes = 0 })))
