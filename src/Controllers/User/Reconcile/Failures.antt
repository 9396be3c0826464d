-- ===== src/Controllers/User/Reconcile/Failures.antt =====
-- What `Reconcile` of a user does where its cluster cannot be read.
use mathlib.Core.Bool.{true≢false}
use postgres_cluster_operato.Kube.Returns.{
  Returns-bind, Returns-bind_when, Returns-handle, Returns-weaken, Returns-pure, Returns-raise,
  Returns-handle_when,
}
use postgres_cluster_operato.Kube.Action.{Requeue}
use postgres_cluster_operato.Api.Cluster.{PostgresInstanceStatus}
use postgres_cluster_operato.Api.Selectors.{InstanceSelector}
use postgres_cluster_operato.Api.Meta.{LabelSelector}
use postgres_cluster_operato.Kube.Emits.{Returns}
use postgres_cluster_operato.Api.User.{PostgresUser}
use postgres_cluster_operato.Controllers.User.Targets.{
  every_instance, all_instances, by_labels, by_selector, by_role, get_target_instances,
}
use postgres_cluster_operato.Controllers.User.Reconcile.{
  reconcile_targets, reconcile_with_cluster, fail_with, reconcile_access,
}
use postgres_cluster_operato.Kube.Env.{Env, Error, History, ok}
use postgres_cluster_operato.Common.{
  List, String, Option, is_some, is_empty, Bool, ◌≡◌, false, if◌then◌else◌, true, none, some, arith,
  ◌∷◌, sym, ◌≢◌, [], refl, string_eq,
}
use postgres_cluster_operato.Controllers.User.Instances.{
  Progress, configure_instances, reconcile_user_on_instances,
}
use postgres_cluster_operato.Kube.Action

abbrev Nothing : {A : Type 0} → A → Type 0
Nothing _ = ⊥

abbrev NonEmpty : List String → Type 0
NonEmpty names = is_empty names ≡ false

abbrev HasFailure : Progress → Type 0
HasFailure p = is_some p.failure ≡ true

module _ ⦃env : Env⦄ where
  every_instance-Returns : Returns NonEmpty (every_instance none)
  unfolding every_instance all_instances Action.deref Action.◌>>=◌
  every_instance-Returns = record { at = λ h b e. ground arith }

  by_role-Returns : (role : String) → Returns NonEmpty (by_role role none)
  unfolding by_role all_instances Action.deref Action.◌>>=◌
  by_role-Returns role = record { at = λ h b e. ground arith }

  all_instances-Returns :
      {A : Type 0} (f : List PostgresInstanceStatus → Action.Action A)
      → Returns Nothing (Action.◌>>=◌ (all_instances none) f)
  unfolding all_instances Action.deref Action.◌>>=◌
  all_instances-Returns f = record { at = λ h b e. ground arith }

  by_labels-Returns : (labels : LabelSelector) → Returns NonEmpty (by_labels labels none)
  unfolding by_labels
  by_labels-Returns labels =
      Returns-bind _ _
        λ selects. Returns-weaken Nothing _ (λ ns n. elim n [ ]) (all_instances-Returns _)

  option-Returns :
      (o : Option LabelSelector)
      → Returns NonEmpty (Action.option o (every_instance none) (λ labels. by_labels labels none))
  unfolding Action.option
  option-Returns none = every_instance-Returns
  option-Returns (some labels) = by_labels-Returns labels

  names_or :
      (names : List String) (m : Action.Action (List String))
      → Returns NonEmpty m
      → Returns NonEmpty (if is_empty names then m else Action.pure names)
  names_or [] m r = r
  names_or (n ∷ names) m r = Returns-pure _ refl

  role_or :
      (role : String) (unset : Bool) (m : Action.Action (List String))
      → Returns NonEmpty m
      → Returns NonEmpty (if unset then m else by_role role none)
  role_or role true m r = r
  role_or role false m r = by_role-Returns role

  targets-Returns :
      (o : Option InstanceSelector)
      → Returns NonEmpty
          (Action.option o (every_instance none) (λ selector. by_selector selector none))
  unfolding by_selector Action.option
  targets-Returns none = every_instance-Returns
  targets-Returns (some s) =
      names_or s.names _ (role_or s.role _ _ (option-Returns s.label_selector))

  configure-Returns :
      (u : PostgresUser) (password : String) (names : List String) (p : Progress)
      → NonEmpty names
      → Returns HasFailure (configure_instances u none password names p)
  unfolding configure_instances Action.steps
  configure-Returns u password [] p n = elim (true≢false n) [ ]
  configure-Returns u password (name ∷ names) p n = record { at = λ h b e. ground arith }

  progress-Returns :
      (u : PostgresUser) (names : List String)
      → NonEmpty names
      → Returns HasFailure (reconcile_user_on_instances u none names)
  unfolding reconcile_user_on_instances
  progress-Returns u names n =
      Returns-handle _ _ _ (λ e. Returns-pure _ refl)
        (λ password. configure-Returns u password names _ n)

  raise_or :
      (o : Option Error) (m : Action.Action Requeue)
      → is_some o ≡ true
      → Returns Nothing (Action.option o m Action.raise)
  unfolding Action.option
  raise_or none m e = elim (true≢false (sym e)) [ ]
  raise_or (some x) m e = Returns-raise x

  reconcile_targets-Returns :
      (u : PostgresUser) (names : List String)
      → NonEmpty names
      → Returns Nothing (reconcile_targets u none names)
  unfolding reconcile_targets
  reconcile_targets-Returns u names n =
      Returns-bind_when HasFailure _ _ (progress-Returns u names n)
        λ p f. Returns-bind _ _ λ _. raise_or p.failure _ f

  fail_with-Returns :
      (u : PostgresUser) (message : String) (e : Error)
      → Returns (Nothing {A = Requeue}) (fail_with u message e)
  unfolding fail_with
  fail_with-Returns u message e = Returns-bind _ _ λ _. Returns-raise e

  with_none-Returns :
      (u : PostgresUser) (e : Option Error) → Returns Nothing (reconcile_with_cluster u none e)
  unfolding reconcile_with_cluster reconcile_access get_target_instances
  with_none-Returns u e = Returns-bind _ _ λ ref. Returns-bind _ _ λ u'.
      Returns-handle_when NonEmpty _ _ _ (targets-Returns u'.spec.instance_selector)
        (λ x. Returns-bind _ _ λ r. fail_with-Returns u' _ x)
        (λ names n.
          Returns-handle _ _ _ (λ x. Returns-bind _ _ λ r. fail_with-Returns u' _ x)
            (λ u''. reconcile_targets-Returns u'' names n))

  -- The reconciliation of a user whose cluster could not be read never succeeds, whatever the user
  -- selects and whatever is answered.
  pub reconcile_with_cluster-none :
      (u : PostgresUser) (e : Option Error) (h : History) (q : Requeue)
      → (reconcile_with_cluster u none e h).0 ≢ ok q
  reconcile_with_cluster-none u e h q = (with_none-Returns u e).at h q
