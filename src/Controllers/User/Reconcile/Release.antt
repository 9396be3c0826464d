-- ===== src/Controllers/User/Reconcile/Release.antt =====
-- That the deletion of a user is not held up by the databases.
use postgres_cluster_operato.Controllers.User.Instances.Survival.{client-Calm}
use postgres_cluster_operato.Common.{List, String, ◌≡◌, some, ◌∷◌, [], ◌==◌, string_eq}
use postgres_cluster_operato.Kube.Calm.{IsCalm, Calm, calm_rules, Calm-bind, Calm-deref, Calm-get}
use postgres_cluster_operato.Kube.Emits.{
  Emits, emits_rules, Emits-pure, given, Emits-bind, Emits-deref, Emits-get,
}
use postgres_cluster_operato.Kube.Makes.{
  Makes, Any, Makes-first, Makes-update, Makes-if, Makes-handle, Makes-finally, Makes-tried,
}
use postgres_cluster_operato.Api.Selectors.{ClusterReference}
use postgres_cluster_operato.Api.Cluster.{PostgresCluster}
use postgres_cluster_operato.Controllers.User.Targets.{get_cluster}
use postgres_cluster_operato.Controllers.User.Reconcile.{
  drop_then, release, handle_user_deletion, user_finalizer,
}
use postgres_cluster_operato.Api.User.{PostgresUser, UserInstanceStatus}
use postgres_cluster_operato.Postgres.Client.{
  drop_user, get_current_database, exec_all, new_client_for_instance, close, Client,
}
use postgres_cluster_operato.Kube.Env.{Env, Call, a_user, postgres_user, postgres_cluster}
use postgres_cluster_operato.Kube.Action

-- The object as it was read, without the finalizer.
abbrev pub released : Env → PostgresUser → PostgresUser
released env user = record user { metadata = env.remove_finalizer user.metadata user_finalizer }

abbrev pub Unfinalizes : Env → PostgresUser → Call
Unfinalizes env user = Call.update (a_user (released env user))

module _ ⦃env : Env⦄ where
  exec_all-Calm : (c : Client) (qs : List String) → IsCalm env → Calm (exec_all c qs)
  unfolding exec_all
  exec_all-Calm c [] k = search calm_rules
  exec_all-Calm c (q ∷ qs) k = given (exec_all-Calm c qs k) λ ih. search calm_rules depth 7

  database-Calm : (c : Client) → IsCalm env → Calm (get_current_database c)
  unfolding get_current_database
  database-Calm c k = search calm_rules depth 7

  drop_user-Calm : (c : Client) (username : String) → IsCalm env → Calm (drop_user c username)
  unfolding drop_user
  drop_user-Calm c username k = search (calm_rules, exec_all-Calm, database-Calm) depth 9

  get_cluster-Calm :
      (u : PostgresUser) (ref : ClusterReference)
      → IsCalm env
      → u.spec.cluster_ref ≡ some ref
      → Calm (get_cluster u)
  unfolding get_cluster
  get_cluster-Calm u ref k e =
      simp e (Calm-bind _ _ (Calm-deref ref) λ r. Calm-get postgres_cluster _ k)

  exec_all-Any : (c : Client) (qs : List String) → Emits Any (exec_all c qs)
  unfolding exec_all
  exec_all-Any c [] = search (emits_rules, tt)
  exec_all-Any c (q ∷ qs) = given (exec_all-Any c qs) λ ih. search (emits_rules, tt) depth 7

  drop_user-Any : (c : Client) (username : String) → Emits Any (drop_user c username)
  unfolding drop_user get_current_database
  drop_user-Any c username = search (emits_rules, exec_all-Any, tt) depth 9

  client-Any : (c : PostgresCluster) (name : String) → Emits Any (new_client_for_instance c name)
  unfolding new_client_for_instance
  client-Any c name = search (emits_rules, tt) depth 9

  close-Any : (c : Client) → Emits Any (close c)
  unfolding close
  close-Any c = search (emits_rules, tt)

  get_cluster-Any : (u : PostgresUser) → Emits Any (get_cluster u)
  unfolding get_cluster
  get_cluster-Any u = Emits-bind _ _ (Emits-deref _) λ ref. Emits-get postgres_cluster _ tt

  release-Makes : (u : PostgresUser) → Makes (Unfinalizes env u) (release u)
  unfolding release
  release-Makes u = Makes-first _ _ (Makes-update postgres_user (released env u)) λ _. Emits-pure _

  drop_then-Makes :
      (call : Call) (u : PostgresUser) (c : PostgresCluster) (ss : List UserInstanceStatus)
      (rest : Action.Action Action.Requeue)
      → IsCalm env
      → Makes call rest
      → Makes call (drop_then u c ss rest)
  unfolding drop_then
  drop_then-Makes call u c [] rest k m = m
  drop_then-Makes call u c (s ∷ ss) rest k m =
      Makes-if s.ready _ _
        (Makes-handle _ _ _ (client-Calm c s.name k) (client-Any c s.name)
          (λ _. drop_then-Makes call u c ss rest k m)
          λ client.
            Makes-finally _ _
              (Makes-tried _ _ (drop_user-Calm client u.spec.username k)
                (drop_user-Any client u.spec.username) (drop_then-Makes call u c ss rest k m))
              (close-Any client))
        (drop_then-Makes call u c ss rest k m)

  -- Where the world does not panic and the user refers to a cluster, handleDeletion of a user
  -- sends the update that takes the finalizer off the user as it was read, whichever calls to the
  -- cluster and the databases fail.
  pub handle_user_deletion-Makes :
      (u : PostgresUser) (ref : ClusterReference)
      → IsCalm env
      → u.spec.cluster_ref ≡ some ref
      → Makes (Unfinalizes env u) (handle_user_deletion u)
  unfolding handle_user_deletion
  handle_user_deletion-Makes u ref k e =
      Makes-if (u.status.phase == "Ready") _ _
        (Makes-handle _ _ _ (get_cluster-Calm u ref k e) (get_cluster-Any u) (λ _. release-Makes u)
          λ c. drop_then-Makes _ u c u.status.instance_statuses _ k (release-Makes u))
        (release-Makes u)
