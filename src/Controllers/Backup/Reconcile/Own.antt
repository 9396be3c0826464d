-- ===== src/Controllers/Backup/Reconcile/Own.antt =====
-- What `Reconcile` of a backup writes: the backup and its job.
use postgres_cluster_operato.Kube.Outcome.{Outcome}
use mathlib.Core.Path.{subst}
use postgres_cluster_operato.Kube.Returns.{
  Returns-bind, Returns-handle, Returns-pure, Returns-handle_when, Returns-lift, Returns-raise,
}
use postgres_cluster_operato.Kube.Emits.{
  Returns, Emits, Emits-bind, Emits-handle_when, Emits-handle, emits_rules, Emits-get, Emits-pure,
  Emits-update_status, Emits-if, Emits-raise, Emits-bind_when, Emits-update,
}
use postgres_cluster_operato.Kube.Resources.{key_of}
use postgres_cluster_operato.Kube.Keys.{KeepsKey, MarksOnly, owned_job-Returns, applied_job-Emits}
use postgres_cluster_operato.Api.Cluster.{PostgresCluster, PostgresInstanceSpec}
use postgres_cluster_operato.Common.{
  Option, ◌≡◌, none, some, false, refl, arith, ◌∙◌, Bool-cases, value, ◌==◌, inl, inr, string_eq,
}
use postgres_cluster_operato.Kube.Objects.{Job}
use postgres_cluster_operato.Controllers.Backup.Target.{set_backup_defaults}
use postgres_cluster_operato.Api.Backup.{PostgresBackup}
use postgres_cluster_operato.Controllers.Backup.Reconcile.{
  report_failure, reconcile_live, reconcile_backup, update_backup_status, reconcile_backup_resource,
  Attempt, backup_finalizer,
}
use postgres_cluster_operato.Api.Meta.{NamespacedName}
use postgres_cluster_operato.Postgres.Backup.{create_backup_job, job_name_of, backup_job}
use postgres_cluster_operato.Kube.Env.{
  Env, History, Call, a_job, Error, postgres_backup, ok, a_backup, postgres_cluster, job,
}
use postgres_cluster_operato.Kube.Action

-- The key of the job of a backup.
abbrev pub job_key : NamespacedName → NamespacedName
job_key key = record { namespace = key.namespace; name = job_name_of key.name }

-- Only the job of the backup is created; only that job, the backup and its status are updated;
-- nothing is deleted and nothing executed on a database.
abbrev pub RunsBackup : NamespacedName → Call → Type 0
RunsBackup key (Call.get k key') = Unit
RunsBackup key (Call.create (a_job j)) = key_of j.metadata ≡ job_key key
RunsBackup key (Call.update (a_job j)) = key_of j.metadata ≡ job_key key
RunsBackup key (Call.update (a_backup b)) = key_of b.metadata ≡ key
RunsBackup key (Call.update_status (a_backup b)) = key_of b.metadata ≡ key
RunsBackup key (Call.list_backups ns labels) = Unit
RunsBackup key Call.now = Unit
RunsBackup key (Call.rand_int n) = Unit
RunsBackup key _ = ⊥

create_backup_job-key :
    (b : PostgresBackup) (c : PostgresCluster) (i : Option PostgresInstanceSpec)
    → Outcome
        (λ (j : Job). key_of j.metadata ≡ job_key (key_of b.metadata))
        Action.⊤
        (create_backup_job b c i)
unfolding create_backup_job backup_job
create_backup_job-key b c i =
    elim (Bool-cases (value "pvcName" c.spec.backup.storage.config == "")) [
      | inl e ↦ simp e tt
      | inr e ↦ simp e refl
    ]

built_job-key :
    (b : PostgresBackup) (c : PostgresCluster) (i : Option PostgresInstanceSpec) (j : Job)
    → create_backup_job b c i ≡ ok j
    → key_of j.metadata ≡ job_key (key_of b.metadata)
built_job-key b c i j e =
    subst (Outcome (λ (j : Job). key_of j.metadata ≡ job_key (key_of b.metadata)) Action.⊤) e
      (create_backup_job-key b c i)

module _ ⦃env : Env⦄ where
  abbrev Own : PostgresBackup → Call → Type 0
  Own b = RunsBackup (key_of b.metadata)

  abbrev Failing : PostgresBackup → Attempt → Type 0
  Failing b a = (e : Error) → a.failure ≡ some e → key_of a.backup.metadata ≡ key_of b.metadata

  status-Own :
      (b : PostgresBackup) (j : Job) (c : PostgresCluster) (i : Option PostgresInstanceSpec)
      → Emits (Own b) (update_backup_status b j c i)
  unfolding update_backup_status
  status-Own b j c i = Emits-bind _ _ (Emits-get {P = Own b} job _ tt) λ current.
      Emits-handle _ _ _ (Emits-update_status {P = Own b} postgres_backup _ refl)
        (λ e. Emits-pure _) (λ stored. Emits-pure _)

  status-Failing :
      (b : PostgresBackup) (j : Job) (c : PostgresCluster) (i : Option PostgresInstanceSpec)
      → Returns (Failing b) (update_backup_status b j c i)
  unfolding update_backup_status
  status-Failing b j c i = Returns-bind _ _ λ current.
      Returns-handle _ _ _ (λ x. Returns-pure _ (λ e f. refl))
        (λ stored. Returns-pure _ (λ e f. ground arith))

  backup-Failing :
      (b : PostgresBackup) (c : PostgresCluster) → Returns (Failing b) (reconcile_backup b c)
  unfolding reconcile_backup
  backup-Failing b c = Returns-bind _ _ λ target.
      Returns-bind _ _
        λ built. Returns-bind _ _ λ owned. Returns-bind _ _ λ _. status-Failing b owned c target

  backup-Own :
      (b : PostgresBackup) (c : PostgresCluster)
      → KeepsKey env
      → Emits (Own b) (reconcile_backup b c)
  unfolding reconcile_backup
  backup-Own b c keeps = Emits-bind _ _ (search (emits_rules, tt)) λ target.
      Emits-bind_when (λ (j : Job). key_of j.metadata ≡ job_key (key_of b.metadata)) _ _
        (Returns-handle_when (λ (j : Job). create_backup_job b c target ≡ ok j) _ _ _
          (Returns-lift _ (λ j e. e)) (λ x. Returns-raise _)
          (λ j e. Returns-pure _ (built_job-key b c target j e)))
        (search (emits_rules, tt))
        λ built e.
          Emits-bind_when (λ (j : Job). key_of j.metadata ≡ job_key (key_of b.metadata)) _ _
            (owned_job-Returns postgres_backup b.metadata built _ keeps e)
            (search (emits_rules, tt))
            λ owned e'.
              Emits-bind _ _
                (Emits-handle _ _ _ (applied_job-Emits (Own b) owned _ tt (λ j k. k) (λ j k. k) e')
                  (λ x. Emits-raise _) (λ a. Emits-pure _))
                (λ _. status-Own b owned c target)

  report-Own :
      (b r : PostgresBackup) (e : Error)
      → key_of r.metadata ≡ key_of b.metadata
      → Emits (Own b) (report_failure r e)
  unfolding report_failure
  report-Own b r e k =
      Emits-bind _ _
        (Emits-handle _ _ _ (Emits-update_status {P = Own b} postgres_backup _ k)
          (λ x. Emits-pure _) (λ x. Emits-pure _))
        (λ _. Emits-raise _)

  reported-Own :
      (b r : PostgresBackup) (o : Option Error)
      → ((e : Error) → o ≡ some e → key_of r.metadata ≡ key_of b.metadata)
      → Emits (Own b) (
          Action.option o
            (Action.pure (record { requeue = false; after_minutes = 5 }))
            (report_failure r))
  unfolding Action.option
  reported-Own b r none f = Emits-pure _
  reported-Own b r (some e) f = report-Own b r e (f e refl)

  live-Own : (b : PostgresBackup) → KeepsKey env → Emits (Own b) (reconcile_live b)
  unfolding reconcile_live set_backup_defaults
  live-Own b keeps =
      Emits-handle _ _ _ (Emits-get {P = Own b} postgres_cluster _ tt)
        (λ e.
          Emits-bind _ _ (Emits-update_status {P = Own b} postgres_backup _ refl)
            (λ _. Emits-pure _))
        (λ cluster.
          Emits-handle_when (Failing b) _ _ _ (backup-Failing (set_backup_defaults b) cluster)
            (backup-Own (set_backup_defaults b) cluster keeps)
            (λ e. report-Own b (set_backup_defaults b) e refl)
            (λ a f. reported-Own b a.backup a.failure f))

  abbrev pub IsAsked : NamespacedName → PostgresBackup → Type 0
  IsAsked key b = (b.metadata.deletion_timestamp ≡ none) × (key_of b.metadata ≡ key)

  get-IsAsked :
      (key : NamespacedName)
      → ((h : History) (b : PostgresBackup)
          → env.on_get h postgres_backup key ≡ ok b
          → IsAsked key b)
      → Returns (IsAsked key) (Action.get postgres_backup key)
  unfolding Action.get
  get-IsAsked key asked = record { at = asked }

  -- Reconcile of a backup, where the server's answers for it have its name and its namespace and
  -- no deletion timestamp, and where AddFinalizer and SetControllerReference keep names and
  -- namespaces, creates at most the job of the backup's own name in the backup's own namespace,
  -- updates only that job, the backup itself and its status, deletes nothing and executes nothing
  -- on a database.
  pub reconcile_backup_resource-RunsBackup :
      (key : NamespacedName)
      → KeepsKey env
      → MarksOnly env
      → ((h : History) (b : PostgresBackup)
          → env.on_get h postgres_backup key ≡ ok b
          → IsAsked key b)
      → Emits (RunsBackup key) (reconcile_backup_resource key)
  unfolding reconcile_backup_resource
  reconcile_backup_resource-RunsBackup key keeps marks asked =
      Emits-handle_when (IsAsked key) _ _ _ (get-IsAsked key asked)
        (Emits-get {P = RunsBackup key} postgres_backup key tt)
        (λ e. Emits-if _ _ _ (Emits-pure _) (Emits-raise _))
        (λ b (live, named). simp live (
          Emits-if _ _ _
            (subst (λ k. Emits (RunsBackup k) (reconcile_live b)) named (live-Own b keeps))
            (Emits-bind _ _
              (Emits-update {P = RunsBackup key} postgres_backup _
                (marks.kept b.metadata backup_finalizer ∙ named))
              (λ _. Emits-pure _))))
