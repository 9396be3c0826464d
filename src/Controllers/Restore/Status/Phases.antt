-- ===== src/Controllers/Restore/Status/Phases.antt =====
-- The phases of a restore, by the phases of its instances.
use mathlib.Core.Path.{subst}
use postgres_cluster_operato.Controllers.Backup.Status.{failed, completed}
use postgres_cluster_operato.Controllers.Restore.Status.{count_phase, restore_phase}
use postgres_cluster_operato.Api.Restore.{InstanceRestoreStatus}
use postgres_cluster_operato.Common.{
  String, List, ◌≡◌, ◌<◌, ◌∷◌, ◌≤◌, Bool-cases, length, ◌↔◌, ◌==◌, inl, All, eq_iff, arith, inr, [],
  string_eq, refl, true,
}

module _ (phase : String) where
  count-All :
      (ss : List InstanceRestoreStatus)
      → (count_phase phase ss ≤ length ss)
        × ((count_phase phase ss ≡ length ss) ↔ All (λ s. s.phase ≡ phase) ss)
  count-All [] = ground arith
  count-All (s ∷ ss) = ground (arith, eq_iff s.phase phase, count-All ss)

-- Some instance is in the phase.
pub data Some (phase : String) : List InstanceRestoreStatus → Type 0 where
  here :
      (s : InstanceRestoreStatus) {ss : List InstanceRestoreStatus}
      → s.phase ≡ phase
      → Some phase (s ∷ ss)
  there :
      (s : InstanceRestoreStatus) {ss : List InstanceRestoreStatus}
      → Some phase ss
      → Some phase (s ∷ ss)

count_of_Some :
    (phase : String) (ss : List InstanceRestoreStatus) → Some phase ss → 0 < count_phase phase ss
count_of_Some phase [] m = elim m [ ]
count_of_Some phase (s ∷ ss) (here _ e) = ground (arith, eq_iff s.phase phase)
count_of_Some phase (s ∷ ss) (there _ m) =
    ground (arith, eq_iff s.phase phase, count_of_Some phase ss m)

Some-of_count :
    (phase : String) (ss : List InstanceRestoreStatus) → 0 < count_phase phase ss → Some phase ss
Some-of_count phase [] h = elim h [ ]
Some-of_count phase (s ∷ ss) h = elim (Bool-cases (s.phase == phase)) [
  | inl e ↦ here s ((eq_iff s.phase phase).0 e)
  | inr e ↦ there s (Some-of_count phase ss (ground arith))
]

-- No text is two phases.
Completed-Failed : (t : String) → t ≡ "Completed" → t ≡ "Failed" → ⊥
Completed-Failed t c f =
    ground (arith, subst (λ x. (x == "Failed") ≡ true) c ((eq_iff t "Failed").1 f))

Failed-All :
    (ss : List InstanceRestoreStatus)
    → All (λ s. s.phase ≡ "Completed") ss
    → count_phase "Failed" ss ≡ 0
Failed-All [] h = refl
Failed-All (s ∷ ss) (h, hs) = elim (Bool-cases (s.phase == "Failed")) [
  | inl e ↦ elim (Completed-Failed s.phase h ((eq_iff s.phase "Failed").0 e)) [ ]
  | inr e ↦ ground (arith, Failed-All ss hs)
]

-- A restore is Failed exactly where the status of some instance is Failed, and Completed exactly
-- where all of them are Completed.
pub restore_phase_iff :
    (ss : List InstanceRestoreStatus)
    → ((restore_phase ss ≡ failed) ↔ Some "Failed" ss)
      × ((restore_phase ss ≡ completed) ↔ All (λ s. s.phase ≡ "Completed") ss)
unfolding restore_phase
restore_phase_iff ss = ground (
  arith,
  count_of_Some "Failed" ss,
  Some-of_count "Failed" ss,
  count-All "Completed" ss,
  Failed-All ss,
)
