-- ===== src/Controllers/Backup/Target/Search.antt =====
-- The instance that a backup is taken from.
use postgres_cluster_operato.Kube.Outcome.{Outcome}
use postgres_cluster_operato.Api.Backup.{PostgresBackup}
use postgres_cluster_operato.Kube.Env.{Error, err, ok, Result, panicked}
use postgres_cluster_operato.Controllers.Backup.Target.{
  find_instance, first_found, selected_names, get_target_instance, find_instance_by_name,
  target_among,
}
use postgres_cluster_operato.Api.Cluster.{PostgresInstanceSpec, PostgresCluster}
use postgres_cluster_operato.Common.{
  String, List, All, ◌∷◌, Option, ◌≢◌, some, Bool-cases, none, ◌≡◌, ◌==◌, inl, eq_iff, inr, arith,
  [], string_eq, ◌⊎◌, refl,
}

pub data Member (i : PostgresInstanceSpec) : List PostgresInstanceSpec → Type 0 where
  first : (is : List PostgresInstanceSpec) → Member i (i ∷ is)
  later :
      (j : PostgresInstanceSpec) {is : List PostgresInstanceSpec} → Member i is → Member i (j ∷ is)

-- No instance has the name.
abbrev pub Absent : String → List PostgresInstanceSpec → Type 0
Absent name = All (λ i. i.name ≢ name)

-- What a search for the name says of the instances.
abbrev pub Search : String → List PostgresInstanceSpec → Option PostgresInstanceSpec → Type 0
Search name is none = Absent name is
Search name is (some i) = (i.name ≡ name) × Member i is

Search-later :
    (name : String) (j : PostgresInstanceSpec) (is : List PostgresInstanceSpec)
    (o : Option PostgresInstanceSpec)
    → j.name ≢ name
    → Search name is o
    → Search name (j ∷ is) o
Search-later name j is none n s = (n, s)
Search-later name j is (some i) n (e, m) = (e, later j m)

pub find_instance-Search :
    (name : String) (is : List PostgresInstanceSpec) → Search name is (find_instance name is)
unfolding find_instance
find_instance-Search name [] = tt
find_instance-Search name (j ∷ is) = elim (Bool-cases (j.name == name)) [
  | inl e ↦ simp e ((eq_iff j.name name).0 e, first is)
  | inr e ↦ simp e (
      Search-later name j is _ (ground (arith, e, eq_iff j.name name))
        (find_instance-Search name is))
]

-- Where an instance that a backup takes its data from stands.
abbrev pub Chosen : List PostgresInstanceSpec → List String → PostgresInstanceSpec → Type 0
Chosen is [] i = ⊥
Chosen is (n ∷ names) i = ((i.name ≡ n) × Member i is) ⊎ (Absent n is × Chosen is names i)

-- No name is that of an instance.
abbrev pub NoneFound : List PostgresInstanceSpec → List String → Type 0
NoneFound is names = All (λ n. Absent n is) names

abbrev Scan : List PostgresInstanceSpec → List String → Option PostgresInstanceSpec → Type 0
Scan is names none = NoneFound is names
Scan is names (some i) = Chosen is names i

Scan-step :
    (is : List PostgresInstanceSpec) (n : String) (names : List String)
    (o rest : Option PostgresInstanceSpec)
    → Search n is o
    → Scan is names rest
    → Scan is (n ∷ names) (elim o [ none ↦ rest | some i ↦ some i ])
Scan-step is n names none none s h = (s, h)
Scan-step is n names none (some i) s h = inr (s, h)
Scan-step is n names (some i) rest s h = inl s

first_found-Scan :
    (is : List PostgresInstanceSpec) (names : List String) → Scan is names (first_found is names)
unfolding first_found
first_found-Scan is [] = tt
first_found-Scan is (n ∷ names) =
    Scan-step is n names _ _ (find_instance-Search n is) (first_found-Scan is names)

-- The names that count: those of the selector, and else the name `primary`.
abbrev pub or_primary : List String → List String
or_primary [] = "primary" ∷ []
or_primary (n ∷ names) = n ∷ names

abbrev pub wanted : PostgresBackup → List String
wanted b = or_primary (selected_names b.spec.instances)

-- The instance that `getTargetInstance` answers with: none at all where the cluster lists none.
abbrev pub Picked : List PostgresInstanceSpec → List String → Option PostgresInstanceSpec → Type 0
Picked [] names o = o ≡ none
Picked (j ∷ is) names none = ⊥
Picked (j ∷ is) names (some i) = Chosen (j ∷ is) names i

module _ (j : PostgresInstanceSpec) (is : List PostgresInstanceSpec) (e : Error) where
  found_or_error :
      (names : List String) (o : Option PostgresInstanceSpec)
      → Scan (j ∷ is) names o
      → Outcome
          (Picked (j ∷ is) names)
          (NoneFound (j ∷ is) names)
          (elim o [ some i ↦ ok (some i) | none ↦ err e ])
  found_or_error names none s = s
  found_or_error names (some i) s = s

  primary_or_error :
      (name : String) (o : Option PostgresInstanceSpec)
      → Search name (j ∷ is) o
      → Outcome (Picked (j ∷ is) (name ∷ [])) (NoneFound (j ∷ is) (name ∷ [])) (
          let r : Result PostgresInstanceSpec = elim o [ none ↦ err e | some i ↦ ok i ] in
          elim r [ ok i ↦ ok (some i) | err f ↦ err f | panicked ↦ panicked ])
  primary_or_error name none s = (s, tt)
  primary_or_error name (some i) s = inl s

target_among-Outcome :
    (is : List PostgresInstanceSpec) (names : List String)
    → Outcome
        (Picked is (or_primary names))
        (NoneFound is (or_primary names))
        (target_among is names)
unfolding target_among find_instance_by_name
target_among-Outcome [] names = refl
target_among-Outcome (j ∷ is) [] =
    primary_or_error j is _ "primary" _ (find_instance-Search "primary" (j ∷ is))
target_among-Outcome (j ∷ is) (n ∷ names) =
    found_or_error j is _ (n ∷ names) _ (first_found-Scan (j ∷ is) (n ∷ names))

-- The target of a backup is none for a cluster that lists no instance, else the instance of the
-- first wanted name that is found, where `primary` is wanted if no name is given; it fails only
-- where no wanted name is found.
pub get_target_instance-Outcome :
    (b : PostgresBackup) (c : PostgresCluster)
    → Outcome
        (Picked c.spec.instances (wanted b))
        (NoneFound c.spec.instances (wanted b))
        (get_target_instance b c)
unfolding get_target_instance
get_target_instance-Outcome b c =
    target_among-Outcome c.spec.instances (selected_names b.spec.instances)
