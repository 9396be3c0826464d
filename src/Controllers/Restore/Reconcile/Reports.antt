-- ===== src/Controllers/Restore/Reconcile/Reports.antt =====
-- What the status of a restore says when `Reconcile` ends.
use postgres_cluster_operato.Controllers.Restore.Targets.{set_restore_defaults}
use postgres_cluster_operato.Kube.Objects.{Job}
use postgres_cluster_operato.Api.Meta.{Time}
use postgres_cluster_operato.Api.Backup.{PostgresBackup}
use postgres_cluster_operato.Kube.Steady.{
  Steady, OnlyOk, steady_rules, Steady-pure, Finishes-Steady, Steady-bind, Steady-option,
  Finishes-after,
}
use postgres_cluster_operato.Kube.Finishes.{
  Finishes, Finishes-handle, Finishes-bind, Finishes-raise, Finishes-pure, Finishes-any, LastCall,
}
use postgres_cluster_operato.Controllers.Backup.Status.{
  JobPhase, completed, failed, running, pending,
}
use postgres_cluster_operato.Api.Cluster.{PostgresCluster, PostgresInstanceSpec}
use postgres_cluster_operato.Controllers.Restore.Instances.Written.{
  IsVerdict, overall_status-IsVerdict,
}
use postgres_cluster_operato.Common.{
  ◌≡◌, Option, String, ℕ, none, List, ◌∷◌, false, [], some, refl, arith, zero, suc,
}
use postgres_cluster_operato.Controllers.Restore.Reconcile.{handle_error, reconcile_pending}
use postgres_cluster_operato.Controllers.Restore.Status.{completion, overall_status}
use postgres_cluster_operato.Controllers.Restore.Instances.{
  Attempt, update_restore_status, restore_instances, restore_instance, initialize_statuses,
  start_job, update_job_status, reconcile_restore,
}
use postgres_cluster_operato.Kube.Env.{
  Env, Result, History, Call, ok, a_restore, Error, err, postgres_restore, panicked,
}
use postgres_cluster_operato.Api.Restore.{
  PostgresRestore, PostgresRestoreStatus, InstanceRestoreStatus,
}
use postgres_cluster_operato.Kube.Action

-- The call updates the status of a restore that satisfies `P`.
abbrev pub WritesStatus : (PostgresRestore → Type 0) → Call → Type 0
WritesStatus P (Call.update_status (a_restore r)) = P r
WritesStatus P _ = ⊥

-- The last call is such an update.
abbrev pub LastReports : (PostgresRestore → Type 0) → History → Type 0
LastReports P = LastCall (WritesStatus P)

abbrev pub SaysFailed : PostgresRestore → Type 0
SaysFailed r = r.status.phase ≡ "Failed"

abbrev pub HasVerdict : PostgresRestore → Type 0
HasVerdict r = IsVerdict r.status

-- A run that returns has written the verdict on the instances, and one that fails a failure.
abbrev pub Reported : Result Action.Requeue → History → Type 0
Reported (ok q) h = (q.after_minutes ≡ 5) × LastReports HasVerdict h
Reported (err e) h = LastReports SaysFailed h
Reported panicked h = Unit

-- An attempt that did not fail has just written the verdict.
abbrev Attempted : Attempt → History → Type 0
Attempted a h = a.failure ≡ none → LastReports HasVerdict h

chained :
    (a : Attempt) (o : Option Error) (m : Action.Action Attempt) (h : History)
    → a.failure ≡ o
    → Finishes (OnlyOk Attempted) h m
    → Finishes (OnlyOk Attempted) h (Action.option o m (λ _. Action.pure a))
unfolding Action.option
chained a none m h e f = f
chained a (some x) m h e f = Finishes-pure a (λ n. ground arith)

module _ ⦃env : Env⦄ where
  job_status-Steady :
      (r : PostgresRestore) (i : ℕ) (s : InstanceRestoreStatus) (j : Job)
      → Steady (update_job_status r i s j)
  unfolding update_job_status
  job_status-Steady r i s j = search steady_rules depth 9

  start_job-Steady :
      (r : PostgresRestore) (c : PostgresCluster) (b : PostgresBackup) (n : ℕ)
      (i : PostgresInstanceSpec) (s : InstanceRestoreStatus)
      → Steady (start_job r c b n i s)
  unfolding start_job
  start_job-Steady r c b n i s = search (steady_rules, job_status-Steady) depth 12

  instance-Steady :
      (r : PostgresRestore) (c : PostgresCluster) (b : PostgresBackup) (n : ℕ)
      (i : PostgresInstanceSpec)
      → Steady (restore_instance r c b n i)
  unfolding restore_instance
  instance-Steady r c b n i = search (steady_rules, job_status-Steady, start_job-Steady) depth 9

  instances-Steady :
      (r : PostgresRestore) (c : PostgresCluster) (b : PostgresBackup) (n : ℕ)
      (is : List PostgresInstanceSpec)
      → Steady (restore_instances r c b n is)
  unfolding restore_instances
  instances-Steady r c b n [] = Steady-pure _
  instances-Steady r c b n (i ∷ is) = Steady-bind _ _ (instance-Steady r c b n i) λ a.
      Steady-option a.failure _ _ (instances-Steady a.restore c b (suc n) is) (λ e. Steady-pure _)

  initialize-Steady :
      (r : PostgresRestore) (is : List PostgresInstanceSpec) → Steady (initialize_statuses r is)
  unfolding initialize_statuses
  initialize-Steady r is = search steady_rules depth 9

  completion-Steady : (p : JobPhase) (o : Option Time) → Steady (completion p o)
  unfolding completion
  completion-Steady completed o = search steady_rules
  completion-Steady failed o = search steady_rules
  completion-Steady running o = search steady_rules
  completion-Steady pending o = search steady_rules

  overall-Steady : (s : PostgresRestoreStatus) → Steady (overall_status s)
  unfolding overall_status
  overall-Steady s = search (steady_rules, completion-Steady)

  update_status-Finishes :
      (P : PostgresRestore → Type 0) (r : PostgresRestore) (h : History)
      → P r
      → Finishes (λ x h'. LastReports P h') h (Action.update_status postgres_restore r)
  unfolding Action.update_status
  update_status-Finishes P r h p = record { at = p }

  restore_status-Attempted :
      (r : PostgresRestore) (h : History) → Finishes (OnlyOk Attempted) h (update_restore_status r)
  unfolding update_restore_status
  restore_status-Attempted r h =
      Finishes-bind (OnlyOk (λ s h'. IsVerdict s)) _ _ h
        (Finishes-Steady IsVerdict _ h (overall-Steady r.status)
          (overall_status-IsVerdict r.status))
        (λ s h1 v.
          Finishes-handle (λ _ h'. LastReports HasVerdict h') _ _ _ h1
            (update_status-Finishes HasVerdict _ h1 v) (λ e h2 p. Finishes-pure _ (λ f. p))
            (λ x h2 p. Finishes-pure _ (λ f. p)) (λ h2 p. tt))
        (λ e h1 p. elim p [ ]) (λ h1 p. tt)

  restore-Attempted :
      (r : PostgresRestore) (c : PostgresCluster) (b : PostgresBackup) (h : History)
      → Finishes (OnlyOk Attempted) h (reconcile_restore r c b)
  unfolding reconcile_restore
  restore-Attempted r c b h =
      Finishes-handle (λ x h'. Unit) _ _ _ h (Finishes-any _ h)
        (λ e h1 u. Finishes-pure _ (λ f. ground arith))
        (λ ts h1 u.
          Finishes-after _ _ h1 (initialize-Steady r ts)
            (λ x h2. chained x x.failure _ h2 refl (
              Finishes-after _ _ h2 (instances-Steady x.restore c b zero ts)
                (λ y h3. chained y y.failure _ h3 refl (restore_status-Attempted y.restore h3))
                (λ h3. tt)))
            (λ h2. tt))
        (λ h1 u. tt)

  error-Reported :
      (r : PostgresRestore) (m : String) (e : Error) (h : History)
      → Finishes Reported h (handle_error r m e)
  unfolding handle_error
  error-Reported r m e h =
      Finishes-bind (λ _ h'. LastReports SaysFailed h') _ _ h
        (update_status-Finishes SaysFailed _ h refl) (λ _ h' p. Finishes-raise _ p) (λ x h' p. p)
        (λ h' p. tt)

  attempt-Reported :
      (a : Attempt) (o : Option Error) (m : String) (h : History)
      → a.failure ≡ o
      → Attempted a h
      → Finishes Reported h (
          Action.option o
            (Action.pure (record { requeue = false; after_minutes = 5 }))
            (handle_error a.restore m))
  unfolding Action.option
  attempt-Reported a none m h e p = Finishes-pure _ (refl, p e)
  attempt-Reported a (some x) m h e p = error-Reported a.restore m x h

  pending-Finishes : (r : PostgresRestore) (h : History) → Finishes Reported h (reconcile_pending r)
  unfolding reconcile_pending
  pending-Finishes r h =
      Finishes-handle (λ x h'. Unit) _ _ _ h (Finishes-any _ h) (λ e h1 u. error-Reported r _ e h1)
        (λ c h1 u.
          Finishes-handle (λ x h'. Unit) _ _ _ h1 (Finishes-any _ h1)
            (λ e h2 u. error-Reported r _ e h2)
            (λ b h2 u.
              Finishes-bind (OnlyOk Attempted) _ _ h2
                (restore-Attempted (set_restore_defaults r) c b h2)
                (λ a h3 p. attempt-Reported a a.failure _ h3 refl p) (λ e h3 p. elim p [ ])
                (λ h3 p. tt))
            (λ h2 u. tt))
        (λ h1 u. tt)

  -- Every run of Reconcile of a restore, past the test for a completed one, that does not panic
  -- has an update of the restore's status as its last call: where it fails, with the phase Failed;
  -- where it returns, it asks to be called again in five minutes, and the phase is Failed exactly
  -- where the status of some instance is Failed, Completed exactly where all of them are
  -- Completed, with a completion time where it is Completed.
  pub reconcile_pending-Reported :
      (r : PostgresRestore) (h : History)
      → Reported (reconcile_pending r h).0 (reconcile_pending r h).1
  reconcile_pending-Reported r h = (pending-Finishes r h).at
