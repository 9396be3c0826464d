-- ===== src/Controllers/Cluster/Status/Tallies.antt =====
-- The tally that the loop over the instances of a cluster makes of their stateful sets.
use postgres_cluster_operato.Controllers.Cluster.Defaults.{get_instance_resource_name}
use postgres_cluster_operato.Controllers.Cluster.Sets.{or_cluster}
use mathlib.Core.Path.{subst}
use postgres_cluster_operato.Kube.Returns.{Returns-pure, Returns-bind}
use postgres_cluster_operato.Kube.Emits.{Returns}
use postgres_cluster_operato.Kube.Objects.{StatefulSet}
use postgres_cluster_operato.Api.Cluster.{
  PostgresCluster, PostgresInstanceStatus, PostgresInstanceSpec,
}
use postgres_cluster_operato.Kube.Env.{Env}
use postgres_cluster_operato.Common.{
  int32, List, ℤ, ◌+ℤ◌, IsInt32, String, map, pos, Option, ◌∷◌, ◌++◌, [], arith, ◌≡◌, negsuc,
  int32_of_IsInt32, ◌∙◌, refl, ap, sym, some, none, Bool-cases, ◌==◌, inl, eq_iff, inr, ltb_ℤ,
  int_eq, if◌then◌else◌, ◌<>◌, false, string_eq, Bool, ◌&&◌, true,
}
use postgres_cluster_operato.Controllers.Cluster.Status.{
  tally_instance, check_instances, Tally, leader_of,
}
use text.Mathlib.TextLemmas.{append-eq-nil_iff, cons≢nil}
use mathlib.Core.List.{append_assoc, map-append, append-nil}

abbrev pub names_of : List PostgresInstanceStatus → List String
names_of = map (λ s. s.name)

abbrev pub instance_names : List PostgresInstanceSpec → List String
instance_names = map (λ i. i.name)

-- The ready replicas of the statuses, added as an int32.
abbrev pub sum_of : ℤ → List PostgresInstanceStatus → ℤ
sum_of total [] = total
sum_of total (s ∷ ss) = sum_of (int32 (total +ℤ s.ready_replicas)) ss

sum_of-append :
    (total : ℤ) (ss : List PostgresInstanceStatus) (s : PostgresInstanceStatus)
    → sum_of total (ss ++ (s ∷ [])) ≡ int32 (sum_of total ss +ℤ s.ready_replicas)
sum_of-append total [] s = refl
sum_of-append total (x ∷ ss) s = sum_of-append (int32 (total +ℤ x.ready_replicas)) ss s

-- The last leader of the statuses, or the old primary where none of them has a leader.
abbrev pub primary_of : String → List PostgresInstanceStatus → String
primary_of old [] = old
primary_of old (s ∷ ss) = primary_of (if s.current_leader == "" then old else s.current_leader) ss

primary_of-append :
    (old : String) (ss : List PostgresInstanceStatus) (s : PostgresInstanceStatus)
    → primary_of old (ss ++ (s ∷ []))
      ≡ (if s.current_leader == "" then primary_of old ss else s.current_leader)
primary_of-append old [] s = refl
primary_of-append old (x ∷ ss) s =
    primary_of-append (if x.current_leader == "" then old else x.current_leader) ss s

-- A pod's name is not empty.
pod-name : (x : String) → ((x <> "-0") == "") ≡ false
pod-name x = elim (Bool-cases ((x <> "-0") == "")) [
  | inl e ↦ absurd (cons≢nil (append-eq-nil_iff.0 ((eq_iff (x <> "-0") "").0 e)).1)
  | inr e ↦ e
]

leader_lem :
    (c : PostgresCluster) (i : PostgresInstanceSpec) (sts : StatefulSet) (old : String)
    → or_cluster (leader_of c i sts) old
      ≡ (if or_cluster (leader_of c i sts) "" == "" then old else or_cluster (leader_of c i sts) "")
unfolding leader_of
leader_lem c i sts old = by_test (i.role == "primary" && ltb_ℤ (pos 0) sts.ready_replicas)
  where
    leader : String
    leader = get_instance_resource_name c.metadata.name i.name <> "-0"

    by_test :
        (b : Bool)
        → or_cluster (if b then some leader else none) old ≡ (
            if or_cluster (if b then some leader else none) "" == ""
            then old
            else or_cluster (if b then some leader else none) "")
    by_test true = rw (pod-name (get_instance_resource_name c.metadata.name i.name)) refl
    by_test false = refl

-- The total and the primary are those of the statuses, and their names are those of the instances
-- so far.
pub record IsTally (old : String) (names : List String) (t : Tally) : Type 0 where
  pub named : names_of t.statuses ≡ names
  pub total : t.total_ready ≡ sum_of (pos 0) t.statuses
  pub in_range : IsInt32 t.total_ready
  pub primary : t.current_primary ≡ primary_of old t.statuses

int32_zero : (a : ℤ) → IsInt32 a → int32 (a +ℤ pos 0) ≡ a
unfolding ◌+ℤ◌
int32_zero (pos n) h = ap int32 (ground arith) ∙ int32_of_IsInt32 (pos n) h
int32_zero (negsuc n) h = ap int32 (ground arith) ∙ int32_of_IsInt32 (negsuc n) h

IsInt32-int32 : (a : ℤ) → IsInt32 (int32 a)
unfolding int32
IsInt32-int32 (pos n) = ground arith
IsInt32-int32 (negsuc n) = ground arith

tally_instance-IsTally :
    (c : PostgresCluster) (i : PostgresInstanceSpec) (found : Option StatefulSet) (t : Tally)
    (old : String) (names : List String)
    → IsTally old names t
    → IsTally old (names ++ (i.name ∷ [])) (tally_instance c i found t)
unfolding tally_instance
tally_instance-IsTally c i none t old names k = record {
  named = map-append (λ s. s.name) t.statuses _ ∙ ap (λ ns. ns ++ (i.name ∷ [])) k.named;
  total = sym (
      sum_of-append (pos 0) t.statuses _
      ∙ ap (λ x. int32 (x +ℤ pos 0)) (sym k.total)
      ∙ int32_zero t.total_ready k.in_range);
  in_range = k.in_range;
  primary = k.primary ∙ sym (primary_of-append old t.statuses _);
}
tally_instance-IsTally c i (some sts) t old names k = record {
  named = map-append (λ s. s.name) t.statuses _ ∙ ap (λ ns. ns ++ (i.name ∷ [])) k.named;
  total = sym (
      sum_of-append (pos 0) t.statuses _ ∙ ap (λ x. int32 (x +ℤ sts.ready_replicas)) (sym k.total));
  in_range = IsInt32-int32 (t.total_ready +ℤ sts.ready_replicas);
  primary =
      leader_lem c i sts t.current_primary
      ∙ ap
          (λ p.
            if or_cluster (leader_of c i sts) "" == ""
            then p
            else or_cluster (leader_of c i sts) "")
          k.primary
      ∙ sym (primary_of-append old t.statuses _);
}

module _ ⦃env : Env⦄ where
  pub check_instances-IsTally :
      (c : PostgresCluster) (is : List PostgresInstanceSpec) (old : String) (names : List String)
      (t : Tally)
      → IsTally old names t
      → Returns (IsTally old (names ++ instance_names is)) (check_instances c is t)
  unfolding check_instances
  check_instances-IsTally c [] old names t k =
      Returns-pure t (subst (λ ns. IsTally old ns t) (sym (append-nil names)) k)
  check_instances-IsTally c (i ∷ is) old names t k = Returns-bind _ _ λ found.
      subst (λ ns. Returns (IsTally old ns) (check_instances c is (tally_instance c i found t)))
        (append_assoc names (i.name ∷ []) (instance_names is))
        (check_instances-IsTally c is old (names ++ (i.name ∷ [])) (tally_instance c i found t)
          (tally_instance-IsTally c i found t old names k))
