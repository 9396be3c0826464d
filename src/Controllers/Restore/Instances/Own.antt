-- ===== src/Controllers/Restore/Instances/Own.antt =====
-- What `reconcileRestore` writes.
use postgres_cluster_operato.Controllers.Restore.Jobs.Feasible.{made_metadata}
use postgres_cluster_operato.Controllers.Restore.Instances.Progress.{
  Progresses, restore_instance-After, restore_instances-Progresses,
}
use postgres_cluster_operato.Controllers.Restore.Jobs.{create_restore_job}
use postgres_cluster_operato.Kube.Returns.{
  Returns-if, Returns-bind, Returns-weaken, Returns-handle, Returns-lift, Returns-pure,
  Returns-handle_when, Returns-bind_when,
}
use postgres_cluster_operato.Kube.Objects.{Job}
use postgres_cluster_operato.Kube.Emits.{
  Emits, Returns, Emits-handle_when, Emits-if, emits_rules, Emits-pure, Emits-handle, Emits-bind,
  Emits-update_status, Emits-lift, Emits-deref, Emits-bind_when, Emits-get, Emits-create,
  Emits-option, Emits-now,
}
use postgres_cluster_operato.Api.Backup.{PostgresBackup}
use postgres_cluster_operato.Controllers.Backup.Status.{
  JobPhase, completed, failed, running, pending,
}
use postgres_cluster_operato.Kube.Keys.{EchoesKey, KeepsKey, owned_job-Returns}
use postgres_cluster_operato.Kube.Resources.{key_of}
use postgres_cluster_operato.Common.{
  String, Option, ◌<>◌, ◌≡◌, List, ℕ, some, ◌∙◌, ◌∷◌, none, ap, zero, arith, suc, [],
}
use postgres_cluster_operato.Api.Cluster.{PostgresCluster, PostgresInstanceSpec}
use postgres_cluster_operato.Controllers.Restore.Status.{completion, overall_status}
use postgres_cluster_operato.Api.Meta.{NamespacedName, Time}
use postgres_cluster_operato.Api.Restore.{
  PostgresRestore, PostgresRestoreStatus, InstanceRestoreStatus,
}
use postgres_cluster_operato.Controllers.Restore.Instances.{
  Attempt, restore_instances, reconcile_restore, update_job_status, update_restore_status,
  restore_instance, start_job, initialize_statuses,
}
use postgres_cluster_operato.Kube.Env.{
  Env, Call, Error, a_job, a_restore, postgres_restore, ok, job,
}
use postgres_cluster_operato.Kube.Action

-- The key of the job of a restore for an instance.
abbrev pub restore_job_key : NamespacedName → String → NamespacedName
restore_job_key key instance = record {
  namespace = key.namespace;
  name = key.name <> "-" <> instance <> "-restore";
}

-- Only jobs of the restore are created; only the restore and its status are updated; nothing is
-- deleted and nothing executed on a database.
abbrev pub RunsRestore : NamespacedName → Call → Type 0
RunsRestore key (Call.get k key') = Unit
RunsRestore key (Call.create (a_job j)) =
    (instance : String) × (key_of j.metadata ≡ restore_job_key key instance)
RunsRestore key (Call.update (a_restore r)) = key_of r.metadata ≡ key
RunsRestore key (Call.update_status (a_restore r)) = key_of r.metadata ≡ key
RunsRestore key Call.now = Unit
RunsRestore key _ = ⊥

built_job-key :
    (r : PostgresRestore) (c : PostgresCluster) (b : PostgresBackup) (i : PostgresInstanceSpec)
    (j : Job) (key : NamespacedName)
    → key_of r.metadata ≡ key
    → create_restore_job r c b i ≡ ok j
    → key_of j.metadata ≡ restore_job_key key i.name
built_job-key r c b i j key k e = let m = made_metadata r c b i j e in ground arith

-- An attempt that goes on in `m` where it has not failed.
chain-Returns :
    {Q : Attempt → Type 0} (a : Attempt) (o : Option Error) (m : Action.Action Attempt)
    → Q a
    → Returns Q m
    → Returns Q (Action.option o m (λ _. Action.pure a))
unfolding Action.option
chain-Returns a none m q r = r
chain-Returns a (some e) m q r = Returns-pure a q

module _ ⦃env : Env⦄ (key : NamespacedName) where
  abbrev Own : Call → Type 0
  Own = RunsRestore key

  abbrev HasKey : Attempt → Type 0
  HasKey a = key_of a.restore.metadata ≡ key

  job_status-Own :
      (r : PostgresRestore) (i : ℕ) (s : InstanceRestoreStatus) (j : Job)
      → Emits Own (update_job_status r i s j)
  unfolding update_job_status
  job_status-Own r i s j = search (emits_rules, tt) depth 9

  start_job-Own :
      (r : PostgresRestore) (c : PostgresCluster) (b : PostgresBackup) (n : ℕ)
      (i : PostgresInstanceSpec) (s : InstanceRestoreStatus)
      → KeepsKey env
      → key_of r.metadata ≡ key
      → Emits Own (start_job r c b n i s)
  unfolding start_job
  start_job-Own r c b n i s keeps k =
      Emits-handle_when (λ (j : Job). key_of j.metadata ≡ restore_job_key key i.name) _ _ _
        (Returns-lift _ (λ j e. built_job-key r c b i j key k e)) (Emits-lift _) (λ x. Emits-pure _)
        λ built e.
          Emits-handle_when (λ (j : Job). key_of j.metadata ≡ restore_job_key key i.name) _ _ _
            (owned_job-Returns postgres_restore r.metadata built _ keeps e)
            (search (emits_rules, tt)) (λ x. Emits-pure _)
            λ owned e'.
              Emits-handle _ _ _ (Emits-create {P = Own} job owned (i.name, e')) (λ x. Emits-pure _)
                λ _. Emits-bind _ _ (Emits-now {P = Own} tt) λ at. job_status-Own _ n _ owned

  instance-Own :
      (r : PostgresRestore) (c : PostgresCluster) (b : PostgresBackup) (n : ℕ)
      (i : PostgresInstanceSpec)
      → KeepsKey env
      → key_of r.metadata ≡ key
      → Emits Own (restore_instance r c b n i)
  unfolding restore_instance
  instance-Own r c b n i keeps k = Emits-bind _ _ (Emits-deref _) λ s.
      Emits-if _ _ _ (Emits-pure _) (
        Emits-handle _ _ _ (Emits-get {P = Own} job _ tt)
          (λ e. Emits-if _ _ _ (start_job-Own r c b n i s keeps k) (Emits-pure _))
          (λ found. job_status-Own r n s found))

  instances-Own :
      (r : PostgresRestore) (c : PostgresCluster) (b : PostgresBackup) (n : ℕ)
      (is : List PostgresInstanceSpec)
      → KeepsKey env
      → key_of r.metadata ≡ key
      → Emits Own (restore_instances r c b n is)
  unfolding restore_instances
  instances-Own r c b n [] keeps k = Emits-pure _
  instances-Own r c b n (i ∷ is) keeps k =
      Emits-bind_when (λ a. a.restore.metadata ≡ r.metadata) _ _
        (Returns-weaken (λ a. Progresses r a.restore) _ (λ a p. p.same_metadata)
          (restore_instance-After r c b n i))
        (instance-Own r c b n i keeps k)
        λ a e.
          Emits-option a.failure _ _
            (instances-Own a.restore c b (suc n) is keeps (ap key_of e ∙ k)) (λ x. Emits-pure _)

  instances-HasKey :
      (r : PostgresRestore) (c : PostgresCluster) (b : PostgresBackup) (n : ℕ)
      (is : List PostgresInstanceSpec)
      → key_of r.metadata ≡ key
      → Returns HasKey (restore_instances r c b n is)
  instances-HasKey r c b n is k =
      Returns-weaken (λ a. Progresses r a.restore) _ (λ a p. ap key_of p.same_metadata ∙ k)
        (restore_instances-Progresses r c b n is)

  -- What a status update of the restore answers.
  stored-HasKey :
      (r : PostgresRestore)
      → EchoesKey env
      → key_of r.metadata ≡ key
      → Returns (λ r'. key_of r'.metadata ≡ key) (Action.update_status postgres_restore r)
  unfolding Action.update_status
  stored-HasKey r echoes k = record { at = λ h r' e. echoes.echoed h r r' e ∙ k }

  initialize-Own :
      (r : PostgresRestore) (is : List PostgresInstanceSpec)
      → key_of r.metadata ≡ key
      → Emits Own (initialize_statuses r is)
  unfolding initialize_statuses
  initialize-Own r is k = Emits-if _ _ _ (Emits-pure _) (
      Emits-handle _ _ _ (Emits-update_status {P = Own} postgres_restore _ k) (λ e. Emits-pure _)
        (λ s. Emits-pure _))

  initialize-HasKey :
      (r : PostgresRestore) (is : List PostgresInstanceSpec)
      → EchoesKey env
      → key_of r.metadata ≡ key
      → Returns HasKey (initialize_statuses r is)
  unfolding initialize_statuses
  initialize-HasKey r is echoes k = Returns-if _ _ _ (Returns-pure _ k) (
      Returns-handle_when _ _ _ _ (stored-HasKey _ echoes k) (λ e. Returns-pure _ k)
        (λ s k'. Returns-pure _ k'))

  completion-Own : (p : JobPhase) (o : Option Time) → Emits Own (completion p o)
  unfolding completion
  completion-Own completed o = search (emits_rules, tt)
  completion-Own failed o = search (emits_rules, tt)
  completion-Own running o = search (emits_rules, tt)
  completion-Own pending o = search (emits_rules, tt)

  overall-Own : (s : PostgresRestoreStatus) → Emits Own (overall_status s)
  unfolding overall_status
  overall-Own s = search (emits_rules, tt, completion-Own)

  restore_status-Own :
      (r : PostgresRestore) → key_of r.metadata ≡ key → Emits Own (update_restore_status r)
  unfolding update_restore_status
  restore_status-Own r k = Emits-bind _ _ (overall-Own r.status) λ s.
      Emits-handle _ _ _ (Emits-update_status {P = Own} postgres_restore _ k) (λ e. Emits-pure _)
        (λ x. Emits-pure _)

  restore_status-HasKey :
      (r : PostgresRestore)
      → EchoesKey env
      → key_of r.metadata ≡ key
      → Returns HasKey (update_restore_status r)
  unfolding update_restore_status
  restore_status-HasKey r echoes k = Returns-bind _ _ λ s.
      Returns-handle_when _ _ _ _ (stored-HasKey _ echoes k) (λ e. Returns-pure _ k)
        (λ s k'. Returns-pure _ k')

  pub restore-HasKey :
      (r : PostgresRestore) (c : PostgresCluster) (b : PostgresBackup)
      → EchoesKey env
      → key_of r.metadata ≡ key
      → Returns HasKey (reconcile_restore r c b)
  unfolding reconcile_restore
  restore-HasKey r c b echoes k =
      Returns-handle _ _ _ (λ e. Returns-pure _ k)
        λ ts. Returns-bind_when HasKey _ _ (initialize-HasKey r ts echoes k) λ x kx.
          chain-Returns x x.failure _ kx (
            Returns-bind_when HasKey _ _ (instances-HasKey x.restore c b zero ts kx)
              λ y ky. chain-Returns y y.failure _ ky (restore_status-HasKey y.restore echoes ky))

  pub restore-Own :
      (r : PostgresRestore) (c : PostgresCluster) (b : PostgresBackup)
      → KeepsKey env
      → EchoesKey env
      → key_of r.metadata ≡ key
      → Emits Own (reconcile_restore r c b)
  unfolding reconcile_restore
  restore-Own r c b keeps echoes k =
      Emits-handle _ _ _ (Emits-lift _) (λ e. Emits-pure _)
        λ ts.
          Emits-bind_when HasKey _ _ (initialize-HasKey r ts echoes k) (initialize-Own r ts k)
            λ x kx.
              Emits-option x.failure _ _
                (Emits-bind_when HasKey _ _ (instances-HasKey x.restore c b zero ts kx)
                  (instances-Own x.restore c b zero ts keeps kx)
                  λ y ky.
                    Emits-option y.failure _ _ (restore_status-Own y.restore ky)
                      (λ e. Emits-pure _))
                (λ e. Emits-pure _)
