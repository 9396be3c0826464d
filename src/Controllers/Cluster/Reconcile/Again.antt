-- ===== src/Controllers/Cluster/Reconcile/Again.antt =====
-- What the second reconciliation of a cluster does.
use postgres_cluster_operato.Controllers.Cluster.Reconcile.Wanted.{desired}
use postgres_cluster_operato.Controllers.Cluster.Reconcile.Desired.{reconcile_cluster-Ensures}
use postgres_cluster_operato.Common.{
  true, false, false, List, Bool, if◌then◌else◌, is_empty, ◌∷◌, [],
}
use postgres_cluster_operato.Controllers.Cluster.Reconcile.{reconcile_active, reconcile_cluster}
use postgres_cluster_operato.Api.Cluster.{PostgresCluster, PostgresInstanceSpec}
use postgres_cluster_operato.Controllers.Cluster.Status.{
  check_instances, update_cluster_status, Tally,
}
use postgres_cluster_operato.Kube.Ensures.{IsSuccess}
use postgres_cluster_operato.Kube.Emits.{
  emits_rules, Emits, Extends, DeletesNothing, Extends-trans, same, Emits-bind, Emits-update,
  Emits-pure,
}
use postgres_cluster_operato.Kube.Env.{
  Env, History, Result, Call, ok, err, panicked, postgres_cluster,
}
use postgres_cluster_operato.Controllers.Cluster.Reconcile.NoDeletes.{status-DeletesNothing}
use postgres_cluster_operato.Kube.Action
use postgres_cluster_operato.Kube.Ensures.Again.{
  Ran-ArePresent, Ran-CreatesNothing, ArePresent-Extends, Keeps, CreatesNothing,
}

ruleset rules = (emits_rules, tt)

-- A chain of two steps, by the result of the first.
module _ {A B : Type 0} where
  first_step_ok_at :
      (r : Result A) (f : A → Action.Action B) (h : History)
      → IsSuccess (Action.◌>>=◌ (Action.lift r) f h).0
      → IsSuccess r
  unfolding Action.◌>>=◌ Action.lift
  first_step_ok_at (ok a) f h s = tt
  first_step_ok_at (err e) f h s = s
  first_step_ok_at panicked f h s = s

  first_step_ok :
      (m : Action.Action A) (f : A → Action.Action B) (h : History)
      → IsSuccess (Action.◌>>=◌ m f h).0
      → IsSuccess (m h).0
  unfolding Action.◌>>=◌ Action.lift
  first_step_ok m f h s = first_step_ok_at (m h).0 f (m h).1 s

  rest_at :
      {P : Call → Type 0} (r : Result A) (f : A → Action.Action B) (h : History)
      → ((a : A) → Emits P (f a))
      → Extends P h (Action.◌>>=◌ (Action.lift r) f h).1
  unfolding Action.◌>>=◌ Action.lift
  rest_at (ok a) f h k = (k a).at h
  rest_at (err e) f h k = same
  rest_at panicked f h k = same

  -- What the second step adds to the history of the first.
  rest_of :
      {P : Call → Type 0} (m : Action.Action A) (f : A → Action.Action B) (h : History)
      → ((a : A) → Emits P (f a))
      → Extends P (m h).1 (Action.◌>>=◌ m f h).1
  unfolding Action.◌>>=◌ Action.lift
  rest_of m f h k = rest_at (m h).0 f (m h).1 k

module _ ⦃env : Env⦄ where
  reconcile_cluster_again :
      (c : PostgresCluster) (h h' : History)
      → Keeps env
      → IsSuccess (reconcile_cluster c h).0
      → Extends DeletesNothing (reconcile_cluster c h).1 h'
      → Extends CreatesNothing h' (reconcile_cluster c h').1
  reconcile_cluster_again c h h' keeps s e =
      Ran-CreatesNothing keeps (desired env c) (reconcile_cluster c h')
        (ArePresent-Extends env postgres_cluster c.metadata keeps (desired env c) e (
          Ran-ArePresent keeps (desired env c) (reconcile_cluster c h)
            ((reconcile_cluster-Ensures c).at h) s))
        ((reconcile_cluster-Ensures c).at h')

  check-CreatesNothing :
      (c : PostgresCluster) (is : List PostgresInstanceSpec) (t : Tally)
      → Emits CreatesNothing (check_instances c is t)
  unfolding check_instances
  check-CreatesNothing c [] t = search rules
  check-CreatesNothing c (i ∷ is) t = search (rules, λ (t : Tally). check-CreatesNothing c is t)

  status-CreatesNothing : (c : PostgresCluster) → Emits CreatesNothing (update_cluster_status c)
  unfolding update_cluster_status
  status-CreatesNothing c = search (rules, check-CreatesNothing)

  -- The part that follows `reconcileCluster`.
  abbrev ending : PostgresCluster → Action.⊤ → Action.Action Action.Requeue
  ending c _ =
      Action.◌>>◌ (update_cluster_status c)
        (Action.pure (record { requeue = false; after_minutes = 5 }))

  active_again :
      (c : PostgresCluster) (none_listed : Bool) (m : Action.Action Action.Requeue) (h h' : History)
      → Keeps env
      → Emits CreatesNothing m
      → IsSuccess ((if none_listed then m else Action.◌>>=◌ (reconcile_cluster c) (ending c)) h).0
      → Extends DeletesNothing
          ((if none_listed then m else Action.◌>>=◌ (reconcile_cluster c) (ending c)) h).1
          h'
      → Extends CreatesNothing h'
          ((if none_listed then m else Action.◌>>=◌ (reconcile_cluster c) (ending c)) h').1
  active_again c true m h h' keeps k s e = k.at h'
  active_again c false m h h' keeps k s e =
      Extends-trans
        (reconcile_cluster_again c h h' keeps (first_step_ok (reconcile_cluster c) (ending c) h s) (
          Extends-trans
            (rest_of (reconcile_cluster c) (ending c) h
              (λ _. Emits-bind _ _ (status-DeletesNothing c) (λ _. Emits-pure _)))
            e))
        (rest_of (reconcile_cluster c) (ending c) h'
          (λ _. Emits-bind _ _ (status-CreatesNothing c) (λ _. Emits-pure _)))

  -- On a server where a created object is found, and one that is found stays until a delete call,
  -- once a reconciliation of a cluster from its defaults on has succeeded, another one of the same
  -- cluster creates nothing, whatever calls that delete nothing were made between and whether or
  -- not it succeeds.
  pub reconcile_active_again-CreatesNothing :
      (c : PostgresCluster) (h h' : History)
      → Keeps env
      → IsSuccess (reconcile_active c h).0
      → Extends DeletesNothing (reconcile_active c h).1 h'
      → Extends CreatesNothing h' (reconcile_active c h').1
  unfolding reconcile_active
  reconcile_active_again-CreatesNothing c h h' keeps s e =
      active_again c (is_empty c.spec.instances) _ h h' keeps
        (Emits-bind _ _ (Emits-update postgres_cluster _ tt) (λ _. Emits-pure _)) s e
