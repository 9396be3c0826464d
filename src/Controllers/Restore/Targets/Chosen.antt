-- ===== src/Controllers/Restore/Targets/Chosen.antt =====
-- The target instances of a restore, for each way to select them.
use postgres_cluster_operato.Kube.Action.{wrap_error}
use postgres_cluster_operato.Controllers.Restore.Targets.Selection.{
  Missing, Named, NoneOfRole, OfRole, instances_named-Outcome, where-All, instances_of_role-Outcome,
  where-covers,
}
use postgres_cluster_operato.Controllers.Backup.Target.Search.{Member}
use postgres_cluster_operato.Api.Meta.{LabelSelector}
use postgres_cluster_operato.Api.Restore.{PostgresRestore}
use postgres_cluster_operato.Api.Selectors.{InstanceSelector}
use postgres_cluster_operato.Kube.Outcome.{Outcome}
use postgres_cluster_operato.Common.{
  Bool, List, All, Option, is_empty, none, ◌≡◌, false, ◌≢◌, Dict, true, ◌==◌, String, some, ◌⊎◌,
  Bool-cases, string_eq, inr, inl, refl,
}
use postgres_cluster_operato.Controllers.Restore.Targets.{
  get_target_instances, by_selector, instances_labelled, instances_where, restore_labels,
  instances_of_role, instances_named,
}
use postgres_cluster_operato.Kube.Env.{Result, Env, ok, err, panicked, Error}
use postgres_cluster_operato.Api.Cluster.{PostgresInstanceSpec, PostgresCluster}

-- The instances that pass a test: all of them, and no others.
abbrev pub Passing :
    (PostgresInstanceSpec → Bool) → List PostgresInstanceSpec → List PostgresInstanceSpec → Type 0
Passing test is found =
    All (λ i. (test i ≡ true) × Member i is) found × All (λ i. (test i ≡ false) ⊎ Member i found) is

module _ (env : Env) (is : List PostgresInstanceSpec) where
  -- The instances that a restore goes to: names come before a role, and a role before labels.
  pub data Selected : Option InstanceSelector → List PostgresInstanceSpec → Type 0 where
    unselected : Selected none is
    named :
        (s : InstanceSelector) (found : List PostgresInstanceSpec)
        → is_empty s.names ≡ false
        → Named is s.names found
        → Selected (some s) found
    of_role :
        (s : InstanceSelector) (found : List PostgresInstanceSpec)
        → is_empty s.names ≡ true
        → (s.role == "") ≡ false
        → OfRole s.role is found
        → Selected (some s) found
    labelled :
        (s : InstanceSelector) (l : LabelSelector) (selects : Dict String → Bool)
        (found : List PostgresInstanceSpec)
        → is_empty s.names ≡ true
        → (s.role == "") ≡ true
        → s.label_selector ≡ some l
        → env.selector_of l ≡ ok selects
        → Passing (λ i. selects (restore_labels i)) is found
        → Selected (some s) found
    unrestricted :
        (s : InstanceSelector)
        → is_empty s.names ≡ true
        → (s.role == "") ≡ true
        → s.label_selector ≡ none
        → Selected (some s) is

  -- A selection that cannot be met.
  pub data Unmet : Option InstanceSelector → Type 0 where
    no_such_name :
        (s : InstanceSelector) → is_empty s.names ≡ false → Missing is s.names → Unmet (some s)
    no_such_role :
        (s : InstanceSelector)
        → is_empty s.names ≡ true
        → (s.role == "") ≡ false
        → NoneOfRole s.role is
        → Unmet (some s)
    no_selector :
        (s : InstanceSelector) (l : LabelSelector) (e : Error)
        → is_empty s.names ≡ true
        → (s.role == "") ≡ true
        → s.label_selector ≡ some l
        → env.selector_of l ≡ err e
        → Unmet (some s)

Outcome-weaken :
    {A : Type 0} {P P' : A → Type 0} {Q Q' : Type 0} (r : Result A)
    → ((a : A) → P a → P' a)
    → (Q → Q')
    → Outcome P Q r
    → Outcome P' Q' r
Outcome-weaken (ok a) f g o = f a o
Outcome-weaken (err e) f g o = g o
Outcome-weaken panicked f g o = elim o [ ]

module _ ⦃env : Env⦄ where
  abbrev Meets :
      List PostgresInstanceSpec
      → Option InstanceSelector
      → Result (List PostgresInstanceSpec)
      → Type 0
  Meets is o = Outcome (Selected env is o) (Unmet env is o)

  labels_step :
      (is : List PostgresInstanceSpec) (s : InstanceSelector) (l : LabelSelector)
      (r : Result (Dict String → Bool))
      → is_empty s.names ≡ true
      → (s.role == "") ≡ true
      → s.label_selector ≡ some l
      → env.selector_of l ≡ r
      → env.selector_of l ≢ panicked
      → Meets is (some s) (elim r [
        | ok selects ↦ ok (instances_where (λ i. selects (restore_labels i)) is)
        | err e ↦ err (wrap_error "invalid label selector" e)
        | panicked ↦ panicked
      ])
  labels_step is s l (ok selects) n r e q calm = labelled s l selects _ n r e q (
    where-All (λ i. selects (restore_labels i)) is,
    where-covers (λ i. selects (restore_labels i)) is,
  )
  labels_step is s l (err x) n r e q calm = no_selector s l x n r e q
  labels_step is s l panicked n r e q calm = absurd (calm q)

  option_step :
      (is : List PostgresInstanceSpec) (s : InstanceSelector) (o : Option LabelSelector)
      → is_empty s.names ≡ true
      → (s.role == "") ≡ true
      → s.label_selector ≡ o
      → ((l : LabelSelector) → env.selector_of l ≢ panicked)
      → Meets is (some s) (elim o [ none ↦ ok is | some l ↦ instances_labelled l is ])
  unfolding instances_labelled
  option_step is s none n r e calm = unrestricted s n r e
  option_step is s (some l) n r e calm = labels_step is s l _ n r e refl (calm l)

  names_step :
      (is : List PostgresInstanceSpec) (s : InstanceSelector)
      → is_empty s.names ≡ false
      → Meets is (some s) (instances_named is s.names)
  names_step is s n =
      Outcome-weaken {P = Named is s.names} {Q = Missing is s.names} _
        (λ found p. named s found n p) (λ p. no_such_name s n p)
        (instances_named-Outcome is s.names)

  role_step :
      (is : List PostgresInstanceSpec) (s : InstanceSelector)
      → is_empty s.names ≡ true
      → (s.role == "") ≡ false
      → Meets is (some s) (instances_of_role s.role is)
  role_step is s n r =
      Outcome-weaken {P = OfRole s.role is} {Q = NoneOfRole s.role is} _
        (λ found p. of_role s found n r p) (λ p. no_such_role s n r p)
        (instances_of_role-Outcome s.role is)

  by_selector-Meets :
      (s : InstanceSelector) (is : List PostgresInstanceSpec)
      → ((l : LabelSelector) → env.selector_of l ≢ panicked)
      → Meets is (some s) (by_selector s is)
  unfolding by_selector
  by_selector-Meets s is calm = elim (Bool-cases (is_empty s.names)) [
    | inr n ↦ simp n (names_step is s n)
    | inl n ↦ elim (Bool-cases (s.role == "")) [
      | inr r ↦ simp (n, r) (role_step is s n r)
      | inl r ↦ simp (n, r) (option_step is s _ n r refl calm)
    ]
  ]

  -- Where LabelSelectorAsSelector does not panic, a restore goes to all instances of the cluster
  -- where it selects none; to the instances of the names that it gives, in their order; else,
  -- where it gives a role, to all instances of that role and no others; else, where it gives
  -- labels, to all instances whose name and role the selector accepts and no others; else to all.
  -- It fails only where a name is that of no instance, no instance has the role, or the labels
  -- make no selector.
  pub get_target_instances-Meets :
      (c : PostgresCluster) (r : PostgresRestore)
      → ((l : LabelSelector) → env.selector_of l ≢ panicked)
      → Outcome
          (Selected env c.spec.instances r.spec.instances)
          (Unmet env c.spec.instances r.spec.instances)
          (get_target_instances c r)
  unfolding get_target_instances
  get_target_instances-Meets c r calm = selected r.spec.instances
    where
      selected :
          (o : Option InstanceSelector)
          → Meets c.spec.instances o
              (elim o [ none ↦ ok c.spec.instances | some s ↦ by_selector s c.spec.instances ])
      selected none = unselected
      selected (some s) = by_selector-Meets s c.spec.instances calm
