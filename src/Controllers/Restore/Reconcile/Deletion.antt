-- ===== src/Controllers/Restore/Reconcile/Deletion.antt =====
-- The order of a restore's deletion.
-- The jobs that the statuses name.
use postgres_cluster_operato.Api.Meta.{namespaced}
use mathlib.Core.Path.{subst⁻¹}
use postgres_cluster_operato.Kube.Action.{Requeue}
use postgres_cluster_operato.Kube.Clearing.{
  Clears, Target, done, bind_assoc, last_call, after_delete, within_call,
}
use postgres_cluster_operato.Common.{
  List, ◌≡◌, inl, Bool, ◌∷◌, [], if◌then◌else◌, ◌==◌, ◌∙◌, string_eq, true, false,
}
use postgres_cluster_operato.Controllers.Restore.Reconcile.{
  delete_jobs, handle_restore_deletion, restore_finalizer,
}
use postgres_cluster_operato.Api.Restore.{PostgresRestore, InstanceRestoreStatus}
use postgres_cluster_operato.Kube.Env.{Env, History, Result, postgres_restore, Call, a_restore, job}
use postgres_cluster_operato.Kube.Action

abbrev pub jobs_of : PostgresRestore → List InstanceRestoreStatus → List Target
jobs_of r [] = []
jobs_of r (s ∷ ss) =
    let rest = jobs_of r ss in
    if s.job_name == "" then rest else (job, namespaced r.metadata.namespace s.job_name) ∷ rest

module _ ⦃env : Env⦄ where
  abbrev pub Releases : PostgresRestore → History → Result Requeue × History → Type 0
  Releases r h out =
      out.1
      ≡ Call.update
          (a_restore (record r { metadata = env.remove_finalizer r.metadata restore_finalizer }))
        ∷ h

  job_step :
      (R : History → Result Requeue × History → Type 0) (r : PostgresRestore)
      (s : InstanceRestoreStatus) (skipped : Bool) (ts : List Target) (n : Action.Action Requeue)
      → ((h : History) → Clears env R ts h (n h))
      → (h : History)
      → Clears env R
          (if skipped then ts else (job, namespaced r.metadata.namespace s.job_name) ∷ ts)
          h
          (Action.◌>>=◌
            (if skipped
              then Action.pure {A = Action.⊤} tt
              else Action.ignore_not_found
                  (Action.delete job (namespaced r.metadata.namespace s.job_name)))
            (λ _. n)
            h)
  job_step R r s true ts n k h = unfold Action.steps in k h
  job_step R r s false ts n k h = after_delete R _ _ _ _ h (k _)

  after_jobs :
      (R : History → Result Requeue × History → Type 0) (r : PostgresRestore)
      (ss : List InstanceRestoreStatus) (n : Action.Action Requeue)
      → ((h : History) → Clears env R [] h (n h))
      → (h : History) → Clears env R (jobs_of r ss) h (Action.◌>>=◌ (delete_jobs r ss) (λ _. n) h)
  unfolding delete_jobs
  after_jobs R r [] n k h = unfold Action.steps in k h
  after_jobs R r (s ∷ ss) n k h =
      subst⁻¹ (Clears env R (jobs_of r (s ∷ ss)) h) (bind_assoc _ _ _ h) (
        job_step R r s (s.job_name == "") (jobs_of r ss) (Action.◌>>=◌ (delete_jobs r ss) (λ _. n))
          (after_jobs R r ss n k) h)

  release_at :
      (o : PostgresRestore) (h : History)
      → (Action.◌>>=◌
          (Action.within "failed to remove finalizer" (Action.update postgres_restore o))
          (λ _. Action.pure Action.no_requeue)
          h).1
        ≡ Call.update (a_restore o) ∷ h
  unfolding Action.update
  release_at o h = last_call _ _ h ∙ within_call _ _ h

  -- The deletion of a restore deletes the jobs that its statuses name, one after the other, and
  -- updates the restore without its finalizer only after each deletion was answered by success or
  -- NotFound; at the first other answer it stops and fails.
  pub handle_restore_deletion-Clears :
      (r : PostgresRestore) (h : History)
      → Clears env
          (Releases r)
          (jobs_of r r.status.instance_statuses)
          h
          (handle_restore_deletion r h)
  unfolding handle_restore_deletion
  handle_restore_deletion-Clears r h =
      after_jobs (Releases r) r r.status.instance_statuses _ (λ h. inl (_, done _, release_at _ _))
        h
