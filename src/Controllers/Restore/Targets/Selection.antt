-- ===== src/Controllers/Restore/Targets/Selection.antt =====
-- The target instances of a restore.
use mathlib.Core.Path.{ap₂}
use postgres_cluster_operato.Kube.Outcome.{Outcome}
use postgres_cluster_operato.Kube.Env.{Result, Error, err, ok, panicked}
use postgres_cluster_operato.Controllers.Backup.Target.Search.{
  find_instance-Search, Absent, Member, Search, first, later,
}
use postgres_cluster_operato.Api.Cluster.{PostgresInstanceSpec}
use postgres_cluster_operato.Controllers.Restore.Targets.{
  instances_named, instances_where, instances_of_role,
}
use postgres_cluster_operato.Common.{
  List, String, ◌≡◌, map, Option, ◌∷◌, All, ◌⊎◌, [], Bool, true, Bool-cases, inl, inr, refl, none,
  some, ◌==◌, string_eq, false, if◌then◌else◌,
}

abbrev pub names_of : List PostgresInstanceSpec → List String
names_of = map (λ i. i.name)

-- One of the names is that of no instance.
abbrev pub Missing : List PostgresInstanceSpec → List String → Type 0
Missing is [] = ⊥
Missing is (n ∷ names) = Absent n is ⊎ Missing is names

-- The named instances, in the order of the names.
abbrev pub Named : List PostgresInstanceSpec → List String → List PostgresInstanceSpec → Type 0
Named is names found = (names_of found ≡ names) × All (λ i. Member i is) found

step :
    (is : List PostgresInstanceSpec) (n : String) (names : List String)
    (o : Option PostgresInstanceSpec) (r : Result (List PostgresInstanceSpec)) (error : Error)
    → Search n is o
    → Outcome (Named is names) (Missing is names) r
    → Outcome (Named is (n ∷ names)) (Missing is (n ∷ names)) (elim o [
      | none ↦ err error
      | some i ↦ elim r [ ok found ↦ ok (i ∷ found) | err e ↦ err e | panicked ↦ panicked ]
    ])
step is n names none r error s h = inl s
step is n names (some i) (ok found) error (e, m) (es, ms) = (ap₂ (◌∷◌) e es, (m, ms))
step is n names (some i) (err e) error s h = inr h
step is n names (some i) panicked error s h = elim h [ ]

-- A restore that selects by names goes to the instances of those names, in the order of the names,
-- each an instance of the cluster; it fails only where a name is that of no instance.
pub instances_named-Outcome :
    (is : List PostgresInstanceSpec) (names : List String)
    → Outcome (Named is names) (Missing is names) (instances_named is names)
unfolding instances_named
instances_named-Outcome is [] = (refl, tt)
instances_named-Outcome is (n ∷ names) =
    step is n names _ _ _ (find_instance-Search n is) (instances_named-Outcome is names)

All-later :
    (P : PostgresInstanceSpec → Type 0) (j : PostgresInstanceSpec)
    (is found : List PostgresInstanceSpec)
    → All (λ i. P i × Member i is) found
    → All (λ i. P i × Member i (j ∷ is)) found
All-later P j is [] h = tt
All-later P j is (i ∷ found) ((p, m), h) = ((p, later j m), All-later P j is found h)

-- The instances that pass a test.
pub where-All :
    (test : PostgresInstanceSpec → Bool) (is : List PostgresInstanceSpec)
    → All (λ i. (test i ≡ true) × Member i is) (instances_where test is)
where-All test [] = tt
where-All test (j ∷ is) = elim (Bool-cases (test j)) [
  | inl e ↦ simp e ((refl, first is), All-later (λ i. test i ≡ true) j is _ (where-All test is))
  | inr e ↦ simp e (All-later (λ i. test i ≡ true) j is _ (where-All test is))
]

All-weaken :
    (P : PostgresInstanceSpec → Type 0) (j : PostgresInstanceSpec)
    (is found : List PostgresInstanceSpec)
    → All (λ i. P i ⊎ Member i found) is
    → All (λ i. P i ⊎ Member i (j ∷ found)) is
All-weaken P j [] found h = tt
All-weaken P j (i ∷ is) found (inl p, h) = (inl p, All-weaken P j is found h)
All-weaken P j (i ∷ is) found (inr m, h) = (inr (later j m), All-weaken P j is found h)

covers_step :
    (test : PostgresInstanceSpec → Bool) (j : PostgresInstanceSpec)
    (is found : List PostgresInstanceSpec) (b : Bool)
    → test j ≡ b
    → All (λ i. (test i ≡ false) ⊎ Member i found) is
    → All (λ i. (test i ≡ false) ⊎ Member i (if b then j ∷ found else found)) (j ∷ is)
covers_step test j is found true e h = (inr (first _), All-weaken (λ i. test i ≡ false) j is _ h)
covers_step test j is found false e h = (inl e, h)

-- Every instance fails the test or is among those that pass.
pub where-covers :
    (test : PostgresInstanceSpec → Bool) (is : List PostgresInstanceSpec)
    → All (λ i. (test i ≡ false) ⊎ Member i (instances_where test is)) is
where-covers test [] = tt
where-covers test (j ∷ is) = covers_step test j is _ _ refl (where-covers test is)

-- The instances of a role: all of them, and no others.
abbrev pub OfRole : String → List PostgresInstanceSpec → List PostgresInstanceSpec → Type 0
OfRole role is found =
    All (λ i. ((i.role == role) ≡ true) × Member i is) found
    × All (λ i. ((i.role == role) ≡ false) ⊎ Member i found) is

abbrev pub NoneOfRole : String → List PostgresInstanceSpec → Type 0
NoneOfRole role = All (λ i. (i.role == role) ≡ false)

none_of_role :
    (role : String) (is : List PostgresInstanceSpec)
    → All (λ i. ((i.role == role) ≡ false) ⊎ Member i []) is
    → NoneOfRole role is
none_of_role role [] h = tt
none_of_role role (i ∷ is) (inl e, h) = (e, none_of_role role is h)
none_of_role role (i ∷ is) (inr m, h) = elim m [ ]

role_or_error :
    (role : String) (is found : List PostgresInstanceSpec) (e : Error)
    → OfRole role is found
    → Outcome
        (OfRole role is)
        (NoneOfRole role is)
        (elim found [ [] ↦ err e | i ∷ rest ↦ ok (i ∷ rest) ])
role_or_error role is [] e (_, all) = none_of_role role is all
role_or_error role is (i ∷ found) e h = h

-- A restore that selects by a role goes to all instances of the cluster that have it and to no
-- others; it fails only where no instance has it.
pub instances_of_role-Outcome :
    (role : String) (is : List PostgresInstanceSpec)
    → Outcome (OfRole role is) (NoneOfRole role is) (instances_of_role role is)
unfolding instances_of_role
instances_of_role-Outcome role is =
    role_or_error role is _ _
      (where-All (λ i. i.role == role) is, where-covers (λ i. i.role == role) is)
