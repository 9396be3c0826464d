-- ===== src/Controllers/User/Targets/Selection.antt =====
-- Which instances a user is configured on.
-- The names of the instances that pass a test, in order.
use mathlib.Core.Path.{subst⁻¹}
use postgres_cluster_operato.Kube.Returns.{
  Returns-pure, Returns-bind_when, Returns-raise, Returns-weaken,
}
use postgres_cluster_operato.Api.Meta.{LabelSelector}
use postgres_cluster_operato.Kube.Emits.{Returns}
use postgres_cluster_operato.Api.User.{PostgresUser}
use postgres_cluster_operato.Api.Selectors.{InstanceSelector}
use postgres_cluster_operato.Controllers.User.Targets.{
  get_target_instances, all_instances, by_labels, by_role, every_instance, by_selector, some_names,
  instance_names, names_where,
}
use postgres_cluster_operato.Common.{
  List, String, Bool, Option, true, [], Dict, ◌==◌, if◌then◌else◌, ◌≡◌, is_empty, ◌∷◌, some, false,
  arith, Bool-cases, none, inl, refl, ◌∙◌, inr, ap, string_eq,
}
use postgres_cluster_operato.Api.Cluster.{PostgresInstanceStatus, PostgresCluster}
use postgres_cluster_operato.Kube.Env.{Env, Result, ok, err, panicked}
use postgres_cluster_operato.Kube.Action

pub data Selected (test : PostgresInstanceStatus → Bool)
    : List PostgresInstanceStatus → List String → Type 0 where
  end : Selected test [] []
  take :
      (s : PostgresInstanceStatus) {ss : List PostgresInstanceStatus} {ns : List String}
      → test s ≡ true
      → Selected test ss ns
      → Selected test (s ∷ ss) (s.name ∷ ns)
  drop :
      (s : PostgresInstanceStatus) {ss : List PostgresInstanceStatus} {ns : List String}
      → test s ≡ false
      → Selected test ss ns
      → Selected test (s ∷ ss) ns

names_where-Selected :
    (test : PostgresInstanceStatus → Bool) (ss : List PostgresInstanceStatus)
    → Selected test ss (names_where test ss)
names_where-Selected test [] = end
names_where-Selected test (s ∷ ss) = elim (Bool-cases (test s)) [
  | inl e ↦ simp e (take s e (names_where-Selected test ss))
  | inr e ↦ simp e (drop s e (names_where-Selected test ss))
]

every-Selected : (ss : List PostgresInstanceStatus) → Selected (λ _. true) ss (instance_names ss)
every-Selected [] = end
every-Selected (s ∷ ss) = take s refl (every-Selected ss)

-- Some instance is selected.
abbrev pub SomeSelected : (PostgresInstanceStatus → Bool) → PostgresCluster → List String → Type 0
SomeSelected test c ns = (is_empty ns ≡ false) × Selected test c.status.instances ns

module _ ⦃env : Env⦄ where
  abbrev pub ByLabels : Option LabelSelector → PostgresCluster → List String → Type 0
  ByLabels none c ns = Selected (λ _. true) c.status.instances ns
  ByLabels (some labels) c ns =
      (selects : (Dict String → Bool)) × (env.selector_of labels ≡ ok selects)
      × SomeSelected (λ s. selects s.labels) c ns

  -- Names come before the role, the role before the labels.
  abbrev pub BySelector : InstanceSelector → PostgresCluster → List String → Type 0
  BySelector selector c ns =
      if is_empty selector.names
      then if selector.role == ""
        then ByLabels selector.label_selector c ns
        else SomeSelected (λ s. s.role == selector.role) c ns
      else ns ≡ selector.names

  abbrev pub Targets : Option InstanceSelector → PostgresCluster → List String → Type 0
  Targets none c ns = Selected (λ _. true) c.status.instances ns
  Targets (some selector) c ns = BySelector selector c ns

  all_instances-Returns :
      (c : PostgresCluster) → Returns (λ is. is ≡ c.status.instances) (all_instances (some c))
  unfolding all_instances Action.deref Action.◌>>=◌ Action.pure
  all_instances-Returns c = record { at = λ h is e. ground arith }

  some_names-Returns :
      (message : String) (names : List String)
      → Returns (λ ns. (is_empty ns ≡ false) × (ns ≡ names)) (some_names message names)
  unfolding some_names
  some_names-Returns message [] = Returns-raise _
  some_names-Returns message (n ∷ names) = Returns-pure _ (refl, refl)

  where-Returns :
      (test : PostgresInstanceStatus → Bool) (message : String) (c : PostgresCluster)
      → Returns
          (SomeSelected test c)
          (Action.◌>>=◌ (all_instances (some c)) (λ is. some_names message (names_where test is)))
  where-Returns test message c =
      Returns-bind_when (λ is. is ≡ c.status.instances) _ _ (all_instances-Returns c)
        λ is e.
          Returns-weaken (λ ns. (is_empty ns ≡ false) × (ns ≡ names_where test is)) _
            (λ ns k. (
              k.0,
              subst⁻¹ (Selected test c.status.instances) (k.1 ∙ ap (names_where test) e)
                  (names_where-Selected test c.status.instances),
            ))
            (some_names-Returns message (names_where test is))

  every-Returns :
      (c : PostgresCluster)
      → Returns (Selected (λ _. true) c.status.instances) (every_instance (some c))
  unfolding every_instance
  every-Returns c =
      Returns-bind_when (λ is. is ≡ c.status.instances) _ _ (all_instances-Returns c)
        λ is e. Returns-pure _ (
          subst⁻¹ (λ js. Selected (λ _. true) c.status.instances (instance_names js)) e
            (every-Selected c.status.instances))

  within-Returns :
      (context : String) (r : Result (Dict String → Bool))
      → Returns (λ s. r ≡ ok s) (Action.within context (Action.lift r))
  unfolding Action.handle Action.lift Action.pure Action.raise
  within-Returns context (ok s) = record { at = λ h a e. e }
  within-Returns context (err x) = record { at = λ h a e. ground arith }
  within-Returns context panicked = record { at = λ h a e. ground arith }

  by_labels-Returns :
      (labels : LabelSelector) (c : PostgresCluster)
      → Returns (ByLabels (some labels) c) (by_labels labels (some c))
  unfolding by_labels
  by_labels-Returns labels c =
      Returns-bind_when (λ s. env.selector_of labels ≡ ok s) _ _ (within-Returns _ _)
        λ s e.
          Returns-weaken (SomeSelected (λ i. s i.labels) c) _ (λ ns k. (s, e, k))
            (where-Returns (λ i. s i.labels) _ c)

  option-Returns :
      (o : Option LabelSelector) (c : PostgresCluster)
      → Returns
          (ByLabels o c)
          (Action.option o (every_instance (some c)) (λ labels. by_labels labels (some c)))
  unfolding Action.option
  option-Returns none c = every-Returns c
  option-Returns (some labels) c = by_labels-Returns labels c

  if-Returns :
      (b : Bool) (P Q : List String → Type 0) (m n : Action.Action (List String))
      → Returns P m
      → Returns Q n
      → Returns (λ ns. if b then P ns else Q ns) (if b then m else n)
  if-Returns true P Q m n p q = p
  if-Returns false P Q m n p q = q

  by_role-Returns :
      (role : String) (c : PostgresCluster)
      → Returns (SomeSelected (λ s. s.role == role) c) (by_role role (some c))
  unfolding by_role
  by_role-Returns role c = where-Returns (λ s. s.role == role) _ c

  selected :
      (o : Option InstanceSelector) (c : PostgresCluster)
      → Returns
          (Targets o c)
          (Action.option o (every_instance (some c)) (λ selector. by_selector selector (some c)))
  unfolding by_selector Action.option
  selected none c = every-Returns c
  selected (some s) c =
      if-Returns _ _ _ _ _
        (if-Returns _ _ _ _ _ (option-Returns s.label_selector c) (by_role-Returns s.role c))
        (Returns-pure _ refl)

  -- With a cluster, getTargetInstances that returns gives the given names where there are any;
  -- else the names of the instances of the cluster's status that have the role, in order and at
  -- least one, where a role is set; else those whose labels the selector matches, likewise; else,
  -- or with no selector, the names of all.
  pub get_target_instances-Targets :
      (u : PostgresUser) (c : PostgresCluster)
      → Returns (Targets u.spec.instance_selector c) (get_target_instances u (some c))
  unfolding get_target_instances
  get_target_instances-Targets u c = selected u.spec.instance_selector c
