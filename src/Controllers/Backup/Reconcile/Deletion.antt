-- ===== src/Controllers/Backup/Reconcile/Deletion.antt =====
-- The order of a backup's deletion.
use postgres_cluster_operato.Kube.Clearing.{last_call, after_delete, Clears, done, IsFailure}
use postgres_cluster_operato.Api.Meta.{NamespacedName, namespaced}
use postgres_cluster_operato.Common.{
  Bool, ◌==◌, if◌then◌else◌, ◌≡◌, ◌∷◌, inl, [], string_eq, refl, true, false,
}
use postgres_cluster_operato.Kube.Objects.{Job}
use postgres_cluster_operato.Controllers.Backup.Reconcile.{handle_backup_deletion, backup_finalizer}
use postgres_cluster_operato.Api.Backup.{PostgresBackup}
use postgres_cluster_operato.Kube.Env.{
  Env, job, Result, History, postgres_backup, ok, Call, a_backup, err, panicked,
}
use postgres_cluster_operato.Kube.Action

module _ ⦃env : Env⦄ where
  -- The update without the finalizer is sent, and nothing else.
  abbrev pub Unlocks : PostgresBackup → History → Result Action.Requeue × History → Type 0
  Unlocks b h out =
      out.1
      ≡ Call.update
          (a_backup (record b { metadata = env.remove_finalizer b.metadata backup_finalizer }))
        ∷ h

  abbrev pub job_key : PostgresBackup → NamespacedName
  job_key b = namespaced b.metadata.namespace b.status.job_name

  -- What follows the answer to the lookup of the job.
  abbrev pub AfterLookup :
      PostgresBackup → History → Result Job → Result Action.Requeue × History → Type 0
  AfterLookup b h (ok j) out =
      Clears env (Unlocks b) ((job, namespaced j.metadata.namespace j.metadata.name) ∷ []) h out
  AfterLookup b h (err e) out = Unlocks b h out
  AfterLookup b h panicked out = (out.1 ≡ h) × IsFailure out.0

  -- Without the name of a job there is none to look up.
  abbrev pub ByName : PostgresBackup → History → Bool → Result Action.Requeue × History → Type 0
  ByName b h nameless out =
      if nameless
      then Unlocks b h out
      else AfterLookup b (Call.get job (job_key b) ∷ h) (env.on_get h job (job_key b)) out

  abbrev pub Dismantles : PostgresBackup → History → Result Action.Requeue × History → Type 0
  Dismantles b h out = ByName b h (b.status.job_name == "") out

  -- The end of the function.
  abbrev unlock : PostgresBackup → Action.Action Action.Requeue
  unlock b =
      Action.◌>>=◌
        (Action.update postgres_backup
          (record b { metadata = env.remove_finalizer b.metadata backup_finalizer }))
        (λ _. Action.pure Action.no_requeue)

  unlock-Unlocks : (b : PostgresBackup) (h : History) → Unlocks b h (unlock b h)
  unfolding Action.update
  unlock-Unlocks b h = last_call _ _ h

  abbrev drop_job : Job → Action.Action Action.⊤
  drop_job j =
      Action.ignore_not_found (Action.delete job (namespaced j.metadata.namespace j.metadata.name))

  after_lookup :
      (b : PostgresBackup) (answer : Result Job) (h : History)
      → AfterLookup b h answer (
          Action.◌>>=◌
            (Action.handle (Action.lift answer) (λ _. Action.pure tt) drop_job)
            (λ _. unlock b)
            h)
  unfolding Action.◌>>=◌ Action.handle Action.lift Action.pure
  after_lookup b (ok j) h =
      after_delete (Unlocks b) _ _ _ (unlock b) h (inl (_, done _, unlock-Unlocks b _))
  after_lookup b (err e) h = unlock-Unlocks b h
  after_lookup b panicked h = (refl, tt)

  dismantle :
      (b : PostgresBackup) (nameless : Bool) (h : History)
      → ByName b h nameless (
          Action.◌>>=◌
            (if nameless
              then Action.pure {A = Action.⊤} tt
              else Action.handle (Action.get job (job_key b)) (λ _. Action.pure tt) drop_job)
            (λ _. unlock b)
            h)
  unfolding Action.◌>>=◌ Action.handle Action.lift Action.pure Action.get
  dismantle b true h = unlock-Unlocks b h
  dismantle b false h = after_lookup b (env.on_get h job (job_key b)) (Call.get job (job_key b) ∷ h)

  -- The deletion of a backup whose status names a job looks the job up, deletes a job that is
  -- found, and then updates the backup without its finalizer only after the deletion was answered
  -- by success or NotFound, else it fails there; where the lookup gives an error, or no job is
  -- named, that update is the next call.
  pub handle_backup_deletion-Dismantles :
      (b : PostgresBackup) (h : History) → Dismantles b h (handle_backup_deletion b h)
  unfolding handle_backup_deletion
  handle_backup_deletion-Dismantles b h = dismantle b (b.status.job_name == "") h
