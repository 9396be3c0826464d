-- ===== src/Controllers/Restore/Instances/Once.antt =====
-- That no job of a restore is created twice.
use postgres_cluster_operato.Controllers.Restore.Jobs.Feasible.{made_metadata}
use postgres_cluster_operato.Kube.Ensures.Again.{Keeps}
use mathlib.Core.Path.{subst}
use postgres_cluster_operato.Kube.Resources.{key_of}
use postgres_cluster_operato.Controllers.Restore.Jobs.{restore_job_name, create_restore_job}
use postgres_cluster_operato.Api.Backup.{PostgresBackup}
use postgres_cluster_operato.Kube.Guards.{
  Guards, Guards-Emits, Grows, Grows-handle, still, step, Guards-bind_when, Grows-trans, Guards-if,
}
use postgres_cluster_operato.Controllers.Restore.Instances.Progress.{
  Advances, Progresses, deref-Returns, restore_instance-After,
}
use postgres_cluster_operato.Api.Cluster.{PostgresCluster, PostgresInstanceSpec}
use postgres_cluster_operato.Kube.Guards.Fresh.{
  CreatesNoJob, IsFresh, WasCreated, CreatesNoJob-IsFresh, missing-WasCreated,
}
use postgres_cluster_operato.Kube.Emits.{
  Emits, emits_rules, Emits-pure, Emits-deref, Emits-bind, Emits-now,
}
use postgres_cluster_operato.Api.Meta.{NamespacedName, namespaced, ObjectMeta}
use postgres_cluster_operato.Kube.Objects.{Job}
use postgres_cluster_operato.Controllers.Restore.Instances.{
  update_job_status, start_job, Attempt, restore_instances, restore_instance,
}
use postgres_cluster_operato.Kube.Keys.{KeepsKey}
use postgres_cluster_operato.Common.{
  List, ℕ, String, ◌∷◌, get_elem?, ◌≡◌, sym, some, ◌∙◌, suc, ap, ◌<>◌, [], arith, refl, zero,
  Option, Bool, if◌then◌else◌, none, true, false,
}
use postgres_cluster_operato.Kube.Env.{
  Env, Result, Error, History, ok, err, with_metadata, job, panicked, Call, a_job, postgres_restore,
}
use postgres_cluster_operato.Api.Restore.{PostgresRestore, InstanceRestoreStatus}
use postgres_cluster_operato.Kube.Action

-- The statuses from an index on name the jobs of the instances.
abbrev pub IsAligned : PostgresRestore → ℕ → List PostgresInstanceSpec → Type 0
IsAligned r i [] = Unit
IsAligned r i (instance ∷ rest) =
    ((s : InstanceRestoreStatus)
      → get_elem? r.status.instance_statuses i ≡ some s
      → s.job_name ≡ restore_job_name r instance)
    × IsAligned r (suc i) rest

abbrev job_key : PostgresRestore → String → NamespacedName
job_key r name = namespaced r.metadata.namespace name

Advances-job_name :
    (ss ts : List InstanceRestoreStatus) (i : ℕ) (t : InstanceRestoreStatus)
    → Advances ss ts
    → get_elem? ts i ≡ some t
    → (s : InstanceRestoreStatus) × (get_elem? ss i ≡ some s) × (s.job_name ≡ t.job_name)
Advances-job_name [] [] i t a e = absurd (ground arith)
Advances-job_name [] (u ∷ ts) i t a e = elim a [ ]
Advances-job_name (s ∷ ss) [] i t a e = elim a [ ]
Advances-job_name (s ∷ ss) (u ∷ ts) zero t ((n, j), a) e = (s, refl, ground arith)
Advances-job_name (s ∷ ss) (u ∷ ts) (suc i) t (m, a) e = Advances-job_name ss ts i t a e

IsAligned-later :
    (r r' : PostgresRestore) (i : ℕ) (instances : List PostgresInstanceSpec)
    → Progresses r r'
    → IsAligned r i instances
    → IsAligned r' i instances
IsAligned-later r r' i [] p a = tt
IsAligned-later r r' i (instance ∷ rest) p (a, as') = (
  (λ t e.
      let (s, q, j) =
        Advances-job_name r.status.instance_statuses r'.status.instance_statuses i t p.advances e in
      sym j ∙ a s q ∙ ap (λ m. m.name <> "-" <> instance.name <> "-restore") (sym p.same_metadata)),
  IsAligned-later r r' (suc i) rest p as',
)

job_key_lem :
    (r : PostgresRestore) (instance : PostgresInstanceSpec) (m : ObjectMeta) (name : String)
    → (m.namespace ≡ r.metadata.namespace) × (m.name ≡ restore_job_name r instance)
    → name ≡ restore_job_name r instance
    → key_of m ≡ job_key r name
job_key_lem r instance m name p a = ground arith

module _ ⦃env : Env⦄ where
  pub quiet : {A : Type 0} (m : Action.Action A) → Emits CreatesNoJob m → Guards (IsFresh env) m
  quiet m = Guards-Emits CreatesNoJob m (CreatesNoJob-IsFresh env)

  job_status-CreatesNoJob :
      (r : PostgresRestore) (i : ℕ) (s : InstanceRestoreStatus) (j : Job)
      → Emits CreatesNoJob (update_job_status r i s j)
  unfolding update_job_status
  job_status-CreatesNoJob r i s j = search (emits_rules, tt) depth 9

  pub stopped : (a : Attempt) → Guards (IsFresh env) (Action.pure a)
  stopped a = quiet _ (Emits-pure a)

  -- The job is created and its status read.
  create_at :
      (key : NamespacedName) (owned : Job) (failed : Error → Action.Action Attempt)
      (done : Action.⊤ → Action.Action Attempt) (h : History)
      → ¬ (WasCreated env key h)
      → key_of owned.metadata ≡ key
      → ((e : Error) → Guards (IsFresh env) (failed e))
      → ((u : Action.⊤) → Guards (IsFresh env) (done u))
      → Grows (IsFresh env) h (Action.handle (Action.create job owned) failed done h).1
  create_at key owned failed done h n e kf kd =
      Grows-handle _ failed done h
        (unfold Action.create in
          step (Call.create (a_job owned)) (λ w. n (subst (λ k. WasCreated env k h) e w)) still)
        kf kd

  reference_at :
      (built : Job) (answer : Result ObjectMeta) (failed : Error → Action.Action Attempt)
      (done : Job → Action.Action Attempt) (h : History)
      → ((e : Error) → Guards (IsFresh env) (failed e))
      → ((m : ObjectMeta)
          → answer ≡ ok m
          → Grows (IsFresh env) h (done (record built { metadata = m }) h).1)
      → Grows
          (IsFresh env)
          h
          (Action.handle
            (Action.◌>>=◌ (Action.lift answer) (λ m. Action.pure (with_metadata job built m)))
            failed
            done
            h).1
  unfolding Action.handle Action.◌>>=◌ Action.lift Action.pure
  reference_at built (ok m) failed done h kf kd = kd m refl
  reference_at built (err e) failed done h kf kd = (kf e).at h
  reference_at built panicked failed done h kf kd = still

  built_at :
      (answer : Result Job) (failed : Error → Action.Action Attempt)
      (done : Job → Action.Action Attempt) (h : History)
      → ((e : Error) → Guards (IsFresh env) (failed e))
      → ((j : Job) → answer ≡ ok j → Grows (IsFresh env) h (done j h).1)
      → Grows (IsFresh env) h (Action.handle (Action.lift answer) failed done h).1
  unfolding Action.handle Action.lift
  built_at (ok j) failed done h kf kd = kd j refl
  built_at (err e) failed done h kf kd = (kf e).at h
  built_at panicked failed done h kf kd = still

  start_at :
      (r : PostgresRestore) (c : PostgresCluster) (b : PostgresBackup) (i : ℕ)
      (instance : PostgresInstanceSpec) (s : InstanceRestoreStatus) (h : History)
      → KeepsKey env
      → ¬ (WasCreated env (job_key r s.job_name) h)
      → s.job_name ≡ restore_job_name r instance
      → Grows (IsFresh env) h (start_job r c b i instance s h).1
  unfolding start_job
  start_at r c b i instance s h keeps n a =
      built_at (create_restore_job r c b instance) _ _ h (λ e. stopped _)
        λ built made.
          reference_at built _ _ _ h (λ e. stopped _)
            λ m owned.
              create_at (job_key r s.job_name) (record built { metadata = m }) _ _ h n
                (keeps.kept postgres_restore r.metadata built.metadata m owned
                  ∙ job_key_lem r instance built.metadata s.job_name
                      (made_metadata r c b instance built made) a)
                (λ e. stopped _)
                (λ _. quiet _ (
                  Emits-bind _ _ (Emits-now tt)
                    (λ at. job_status-CreatesNoJob _ _ _ (record built { metadata = m }))))

  missing_at :
      (r : PostgresRestore) (c : PostgresCluster) (b : PostgresBackup) (i : ℕ)
      (instance : PostgresInstanceSpec) (s : InstanceRestoreStatus) (missing : Bool)
      (failed : Attempt) (h : History)
      → KeepsKey env
      → ¬ (WasCreated env (job_key r s.job_name) h)
      → s.job_name ≡ restore_job_name r instance
      → Grows
          (IsFresh env)
          h
          ((if missing then start_job r c b i instance s else Action.pure failed) h).1
  missing_at r c b i instance s true failed h keeps n a = start_at r c b i instance s h keeps n a
  missing_at r c b i instance s false failed h keeps n a = (stopped failed).at h

  looked_at :
      (r : PostgresRestore) (c : PostgresCluster) (b : PostgresBackup) (i : ℕ)
      (instance : PostgresInstanceSpec) (s : InstanceRestoreStatus) (failed : Error → Attempt)
      (h : History) (answer : Result Job)
      → Keeps env
      → KeepsKey env
      → env.on_get h job (job_key r s.job_name) ≡ answer
      → s.job_name ≡ restore_job_name r instance
      → Grows
          (IsFresh env)
          (Call.get job (job_key r s.job_name) ∷ h)
          (Action.handle
            (Action.lift answer)
            (λ e. if e.not_found then start_job r c b i instance s else Action.pure (failed e))
            (λ found. update_job_status r i s found)
            (Call.get job (job_key r s.job_name) ∷ h)).1
  unfolding Action.handle Action.lift
  looked_at r c b i instance s failed h (ok found) keeps key q a =
      (quiet _ (job_status-CreatesNoJob r i s found)).at _
  looked_at r c b i instance s failed h (err e) keeps key q a =
      missing_at r c b i instance s e.not_found (failed e) _ key
        (missing-WasCreated keeps (job_key r s.job_name) h e q) a
  looked_at r c b i instance s failed h panicked keeps key q a = still

  lookup-Guards :
      (r : PostgresRestore) (c : PostgresCluster) (b : PostgresBackup) (i : ℕ)
      (instance : PostgresInstanceSpec) (s : InstanceRestoreStatus) (failed : Error → Attempt)
      → Keeps env
      → KeepsKey env
      → s.job_name ≡ restore_job_name r instance
      → Guards (IsFresh env) (
          Action.handle
            (Action.get job (job_key r s.job_name))
            (λ e. if e.not_found then start_job r c b i instance s else Action.pure (failed e))
            (λ found. update_job_status r i s found))
  unfolding Action.handle Action.lift Action.get
  lookup-Guards r c b i instance s failed keeps key a = record {
    at = λ h. Grows-trans (step _ tt still) (
        looked_at r c b i instance s failed h (env.on_get h job (job_key r s.job_name)) keeps key
          refl a);
  }

  instance-Guards :
      (r : PostgresRestore) (c : PostgresCluster) (b : PostgresBackup) (i : ℕ)
      (instance : PostgresInstanceSpec)
      → Keeps env
      → KeepsKey env
      → ((s : InstanceRestoreStatus)
          → get_elem? r.status.instance_statuses i ≡ some s
          → s.job_name ≡ restore_job_name r instance)
      → Guards (IsFresh env) (restore_instance r c b i instance)
  unfolding restore_instance
  instance-Guards r c b i instance keeps key a =
      Guards-bind_when (λ s. get_elem? r.status.instance_statuses i ≡ some s) _ _ (deref-Returns _)
        (quiet _ (Emits-deref _))
        λ s e. Guards-if _ _ _ (stopped _) (lookup-Guards r c b i instance s _ keeps key (a s e))

  pub failure-Guards :
      (o : Option Error) (m : Action.Action Attempt) (a : Attempt)
      → Guards (IsFresh env) m
      → Guards (IsFresh env) (Action.option o m (λ _. Action.pure a))
  unfolding Action.option
  failure-Guards none m a g = g
  failure-Guards (some e) m a g = stopped a

  pub restore_instances-Guards :
      (r : PostgresRestore) (c : PostgresCluster) (b : PostgresBackup) (i : ℕ)
      (instances : List PostgresInstanceSpec)
      → Keeps env
      → KeepsKey env
      → IsAligned r i instances
      → Guards (IsFresh env) (restore_instances r c b i instances)
  unfolding restore_instances
  restore_instances-Guards r c b i [] keeps key a = stopped _
  restore_instances-Guards r c b i (instance ∷ rest) keeps key (a, as') =
      Guards-bind_when (λ x. Progresses r x.restore) _ _ (restore_instance-After r c b i instance)
        (instance-Guards r c b i instance keeps key a)
        λ x p. failure-Guards x.failure _ x (
          restore_instances-Guards x.restore c b (suc i) rest keeps key
            (IsAligned-later r x.restore (suc i) rest p as'))
