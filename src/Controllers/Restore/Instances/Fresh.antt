-- ===== src/Controllers/Restore/Instances/Fresh.antt =====
-- That `reconcileRestore` creates no job twice, in however many runs.
use postgres_cluster_operato.Controllers.Restore.Targets.{get_target_instances}
use postgres_cluster_operato.Kube.Ensures.Again.{Keeps}
use postgres_cluster_operato.Api.Backup.{PostgresBackup}
use postgres_cluster_operato.Controllers.Restore.Instances.Written.{
  WritesVerdict, update_restore_status-WritesVerdict,
}
use postgres_cluster_operato.Controllers.Restore.Jobs.{restore_job_name}
use postgres_cluster_operato.Kube.Guards.Fresh.{IsFresh, CreatesNoJob, CreatesNoJob-IsFresh}
use postgres_cluster_operato.Kube.Returns.{Returns-if_when, Returns-pure, Returns-handle_when}
use postgres_cluster_operato.Kube.Guards.{Guards, Guards-Emits, still, Guards-bind_when}
use postgres_cluster_operato.Kube.Emits.{Returns, emits_rules}
use postgres_cluster_operato.Controllers.Restore.Instances.Once.{
  IsAligned, quiet, failure-Guards, stopped, restore_instances-Guards,
}
use postgres_cluster_operato.Api.Cluster.{PostgresInstanceSpec, PostgresCluster}
use postgres_cluster_operato.Kube.Keys.{KeepsKey}
use postgres_cluster_operato.Common.{
  ℕ, List, length, ◌≡◌, get_elem?, ◌∷◌, ◌+◌, zero, ap, map, suc, sym, [], ◌∙◌, ◌<>◌, arith, some,
  none, ◌==◌, Option, true, nat_eq, refl,
}
use postgres_cluster_operato.Api.Restore.{PostgresRestore, InstanceRestoreStatus}
use postgres_cluster_operato.Kube.Env.{
  Env, History, postgres_restore, ok, Call, Result, Error, err, panicked,
}
use postgres_cluster_operato.Controllers.Restore.Instances.{
  pending_status, update_restore_status, initialize_statuses, Attempt, reconcile_restore,
}
use postgres_cluster_operato.Kube.Action

-- The server answers a status update of a restore with the status as it was sent.
pub record Echoes (env : Env) : Type 0 where
  pub status :
      (h : History) (r r' : PostgresRestore)
      → env.on_update_status h postgres_restore r ≡ ok r'
      → r'.status ≡ r.status
  pub name :
      (h : History) (r r' : PostgresRestore)
      → env.on_update_status h postgres_restore r ≡ ok r'
      → r'.metadata.name ≡ r.metadata.name

-- Where the statuses are as many as the targets, they name the jobs of the targets.
abbrev pub IsLaidOut : PostgresRestore → List PostgresInstanceSpec → Type 0
IsLaidOut r targets = length r.status.instance_statuses ≡ length targets → IsAligned r zero targets

IsAligned-stored :
    (r r' : PostgresRestore) (i : ℕ) (targets : List PostgresInstanceSpec)
    → r'.status ≡ r.status
    → r'.metadata.name ≡ r.metadata.name
    → IsAligned r i targets
    → IsAligned r' i targets
IsAligned-stored r r' i [] e n a = tt
IsAligned-stored r r' i (t ∷ ts) e n (a, as') = (
  (λ s q.
      a s (ap (λ x. get_elem? x.instance_statuses i) (sym e) ∙ q)
      ∙ ap (λ x. x <> "-" <> t.name <> "-restore") (sym n)),
  IsAligned-stored r r' (suc i) ts e n as',
)

pending-job_name :
    (r r' : PostgresRestore) (t : PostgresInstanceSpec) (s : InstanceRestoreStatus)
    → r'.metadata.name ≡ r.metadata.name
    → some s ≡ some (pending_status r t)
    → s.job_name ≡ restore_job_name r' t
unfolding pending_status
pending-job_name r r' t s n e = ground arith

-- Statuses that are laid out anew are aligned, wherever the list starts.
pending-IsAligned :
    (r r' : PostgresRestore) (i : ℕ) (targets : List PostgresInstanceSpec)
    → r'.metadata.name ≡ r.metadata.name
    → ((k : ℕ)
        → get_elem? r'.status.instance_statuses (i + k)
          ≡ get_elem? (map (pending_status r) targets) k)
    → IsAligned r' i targets
pending-IsAligned r r' i [] n f = tt
pending-IsAligned r r' i (t ∷ ts) n f = (
  (λ s e.
      pending-job_name r r' t s n
        (sym e ∙ ap (λ k. get_elem? r'.status.instance_statuses k) (omega arith) ∙ f 0)),
  pending-IsAligned r r' (suc i) ts n
      (λ k. ap (λ j. get_elem? r'.status.instance_statuses j) (omega arith) ∙ f (suc k)),
)

same_length : (m n : ℕ) → (m == n) ≡ true → m ≡ n
same_length m n e = ground arith

WritesVerdict-CreatesNoJob : (env : Env) (c : Call) → WritesVerdict ⦃env = env⦄ c → CreatesNoJob c
WritesVerdict-CreatesNoJob env (Call.create o) v = elim v [ ]
WritesVerdict-CreatesNoJob env _ v = tt

module _ ⦃env : Env⦄ where
  -- After `initialize_statuses` the statuses name the jobs of the targets.
  stored-IsAligned :
      (r : PostgresRestore) (targets : List PostgresInstanceSpec) (stored : PostgresRestore)
      (h : History)
      → Echoes env
      → env.on_update_status h postgres_restore (record r {
        status = record (r.status) { instance_statuses = map (pending_status r) targets };
      })
        ≡ ok stored
      → IsAligned stored zero targets
  stored-IsAligned r targets stored h echoes e =
      pending-IsAligned r stored zero targets (echoes.name h _ stored e) (λ k.
        ap (λ x. get_elem? x.instance_statuses (zero + k)) (echoes.status h _ stored e)
        ∙ ap (λ j. get_elem? (map (pending_status r) targets) j) (omega arith))

  abbrev AlignedIfOk : List PostgresInstanceSpec → Attempt → Type 0
  AlignedIfOk targets a = a.failure ≡ none → IsAligned a.restore zero targets

  update_status-Returns :
      (r : PostgresRestore)
      → Returns
          (λ r'. (h : History) × (env.on_update_status h postgres_restore r ≡ ok r'))
          (Action.update_status postgres_restore r)
  unfolding Action.update_status
  update_status-Returns r = record { at = λ h r' e. (h, e) }

  laid_out :
      (r : PostgresRestore) (targets : List PostgresInstanceSpec)
      → Echoes env
      → IsLaidOut r targets
      → Returns (AlignedIfOk targets) (initialize_statuses r targets)
  unfolding initialize_statuses
  laid_out r targets echoes a =
      Returns-if_when (length r.status.instance_statuses == length targets) _ _
        (λ same. Returns-pure _ (λ _. a (same_length _ _ same)))
        (λ _.
          Returns-handle_when _ _ _ _ (update_status-Returns _)
            (λ e. Returns-pure _ (λ f. ground arith))
            (λ stored (h, e). Returns-pure _ (λ _. stored-IsAligned r targets stored h echoes e)))

  initialize-Guards :
      (r : PostgresRestore) (targets : List PostgresInstanceSpec)
      → Guards (IsFresh env) (initialize_statuses r targets)
  unfolding initialize_statuses
  initialize-Guards r targets = quiet _ (search (emits_rules, tt) depth 9)

  status-Guards : (r : PostgresRestore) → Guards (IsFresh env) (update_restore_status r)
  status-Guards r =
      Guards-Emits WritesVerdict _
        (λ p c v. CreatesNoJob-IsFresh env p c (WritesVerdict-CreatesNoJob env c v))
        (update_restore_status-WritesVerdict r)

  -- Whatever follows a part that succeeded.
  and_then-Guards :
      (a : Attempt) (o : Option Error) (m : Action.Action Attempt)
      → (o ≡ none → Guards (IsFresh env) m)
      → Guards (IsFresh env) (Action.option o m (λ _. Action.pure a))
  and_then-Guards a none m g = failure-Guards none m a (g refl)
  and_then-Guards a (some x) m g = unfold Action.option in stopped a

  targets_at :
      (r : PostgresRestore) (answer : Result (List PostgresInstanceSpec)) (failed : Error → Attempt)
      (done : List PostgresInstanceSpec → Action.Action Attempt)
      → ((ts : List PostgresInstanceSpec) → answer ≡ ok ts → Guards (IsFresh env) (done ts))
      → Guards (IsFresh env) (Action.handle (Action.lift answer) (λ e. Action.pure (failed e)) done)
  unfolding Action.handle Action.lift Action.pure
  targets_at r (ok ts) failed done k = record { at = λ h. (k ts refl).at h }
  targets_at r (err e) failed done k = record { at = λ h. still }
  targets_at r panicked failed done k = record { at = λ h. still }

  -- On a server where a created object is found and stays until a delete call, that answers a
  -- status update of a restore with the status and the name as they were sent, and where
  -- SetControllerReference keeps names and namespaces, reconcileRestore of a restore whose
  -- statuses, where they are as many as the targets, name the jobs of the targets creates no job
  -- under a name under which one was created before and nothing was deleted since, in this or an
  -- earlier run of the history.
  pub reconcile_restore-IsFresh :
      (r : PostgresRestore) (c : PostgresCluster) (b : PostgresBackup)
      → Keeps env
      → KeepsKey env
      → Echoes env
      → ((ts : List PostgresInstanceSpec) → get_target_instances c r ≡ ok ts → IsLaidOut r ts)
      → Guards (IsFresh env) (reconcile_restore r c b)
  unfolding reconcile_restore
  reconcile_restore-IsFresh r c b keeps key echoes a =
      targets_at r (get_target_instances c r) _ _ λ ts e.
        Guards-bind_when (AlignedIfOk ts) _ _ (laid_out r ts echoes (a ts e))
          (initialize-Guards r ts)
          λ x p. and_then-Guards x x.failure _ λ f.
            Guards-bind_when (λ _. Action.⊤) _ _ (record { at = λ h y q. tt })
              (restore_instances-Guards x.restore c b zero ts keeps key (p f))
              λ y _. and_then-Guards y y.failure _ (λ _. status-Guards y.restore)
