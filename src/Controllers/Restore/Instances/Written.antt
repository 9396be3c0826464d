-- ===== src/Controllers/Restore/Instances/Written.antt =====
-- The status of a restore that is written at the end of a reconciliation.
-- What a written status says of the instances.
use postgres_cluster_operato.Kube.Returns.{Returns-bind_when, Returns-bind, Returns-pure}
use postgres_cluster_operato.Api.Meta.{Time}
use postgres_cluster_operato.Kube.Emits.{
  Returns, Emits, emits_rules, Emits-bind_when, Emits-handle, Emits-update_status, Emits-pure,
}
use postgres_cluster_operato.Controllers.Restore.Status.Phases.{Some, restore_phase_iff}
use postgres_cluster_operato.Controllers.Restore.Instances.{update_restore_status}
use postgres_cluster_operato.Controllers.Restore.Status.{
  phase_name, overall_status, completion, restore_phase,
}
use postgres_cluster_operato.Controllers.Backup.Status.{
  JobPhase, completed, failed, running, pending,
}
use postgres_cluster_operato.Api.Restore.{PostgresRestoreStatus, PostgresRestore}
use postgres_cluster_operato.Kube.Env.{Env, Call, a_restore, postgres_restore}
use postgres_cluster_operato.Common.{
  ◌↔◌, ◌≡◌, Option, All, arith, is_some, eq_iff, true, ◌⊎◌, ◌≢◌, inl, inr, refl,
}

pub record IsVerdict (s : PostgresRestoreStatus) : Type 0 where
  pub is_failed : (s.phase ≡ "Failed") ↔ Some "Failed" s.instance_statuses
  pub is_completed : (s.phase ≡ "Completed") ↔ All (λ i. i.phase ≡ "Completed") s.instance_statuses
  pub has_time : (is_some s.completion_time ≡ true) ⊎ (s.phase ≢ "Completed")

phase_name_iff :
    (p : JobPhase)
    → ((phase_name p ≡ "Failed") ↔ (p ≡ failed)) × ((phase_name p ≡ "Completed") ↔ (p ≡ completed))
phase_name_iff completed = ground (arith, eq_iff "Completed" "Failed")
phase_name_iff failed = ground (arith, eq_iff "Completed" "Failed", eq_iff "Failed" "Completed")
phase_name_iff running = ground (arith, eq_iff "Running" "Completed", eq_iff "Running" "Failed")
phase_name_iff pending = ground (arith, eq_iff "Pending" "Completed", eq_iff "Pending" "Failed")

-- Two equivalences in a row.
through : {A B C : Type 0} → A ↔ B → B ↔ C → A ↔ C
through (f, g) (h, k) = (λ a. h (f a), λ c. g (k c))

module _ ⦃env : Env⦄ where
  completion-Returns :
      (p : JobPhase) (old : Option Time)
      → Returns (λ o. (is_some o ≡ true) ⊎ (phase_name p ≢ "Completed")) (completion p old)
  unfolding completion
  completion-Returns completed old = Returns-bind _ _ λ at. Returns-pure _ (inl refl)
  completion-Returns failed old = Returns-pure _ (inr (ground (arith, eq_iff "Failed" "Completed")))
  completion-Returns running old =
      Returns-pure _ (inr (ground (arith, eq_iff "Running" "Completed")))
  completion-Returns pending old =
      Returns-pure _ (inr (ground (arith, eq_iff "Pending" "Completed")))

  pub overall_status-IsVerdict : (s : PostgresRestoreStatus) → Returns IsVerdict (overall_status s)
  unfolding overall_status
  overall_status-IsVerdict s =
      Returns-bind_when
        (λ o. (is_some o ≡ true) ⊎ (phase_name (restore_phase s.instance_statuses) ≢ "Completed")) _
        _ (completion-Returns (restore_phase s.instance_statuses) s.completion_time)
        λ o t. Returns-bind _ _ λ at. Returns-pure _ (record {
          is_failed =
              through (phase_name_iff (restore_phase s.instance_statuses)).0
                (restore_phase_iff s.instance_statuses).0;
          is_completed =
              through (phase_name_iff (restore_phase s.instance_statuses)).1
                (restore_phase_iff s.instance_statuses).1;
          has_time = t;
        })

  -- A written status is a verdict, and nothing else is written.
  abbrev pub WritesVerdict : Call → Type 0
  WritesVerdict (Call.update_status (a_restore r)) = IsVerdict r.status
  WritesVerdict Call.now = Unit
  WritesVerdict _ = ⊥

  completion-Emits : (p : JobPhase) (old : Option Time) → Emits WritesVerdict (completion p old)
  unfolding completion
  completion-Emits completed old = search (emits_rules, tt)
  completion-Emits failed old = search (emits_rules, tt)
  completion-Emits running old = search (emits_rules, tt)
  completion-Emits pending old = search (emits_rules, tt)

  overall-Emits : (s : PostgresRestoreStatus) → Emits WritesVerdict (overall_status s)
  unfolding overall_status
  overall-Emits s = search (emits_rules, tt, completion-Emits)

  -- Every status that updateRestoreStatus writes is Failed exactly where the status of some
  -- instance in it is Failed, Completed exactly where all of them are Completed, and has a
  -- completion time where it is Completed; the function makes no other call than reading the
  -- clock.
  pub update_restore_status-WritesVerdict :
      (r : PostgresRestore) → Emits WritesVerdict (update_restore_status r)
  unfolding update_restore_status
  update_restore_status-WritesVerdict r =
      Emits-bind_when IsVerdict _ _ (overall_status-IsVerdict r.status) (overall-Emits r.status)
        λ s v.
          Emits-handle _ _ _ (Emits-update_status {P = WritesVerdict} postgres_restore _ v)
            (λ e. Emits-pure _) (λ stored. Emits-pure _)
