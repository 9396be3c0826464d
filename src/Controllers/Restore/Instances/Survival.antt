-- ===== src/Controllers/Restore/Instances/Survival.antt =====
-- That the loop over the instances of a restore does not panic.
use postgres_cluster_operato.Postgres.Restore.Feasible.{Restorable, Mountable}
use postgres_cluster_operato.Controllers.Restore.Jobs.Feasible.{Made, create_restore_job-Outcome}
use postgres_cluster_operato.Kube.Outcome.{Outcome}
use mathlib.Core.Path.{subst}
use postgres_cluster_operato.Controllers.Restore.Jobs.{create_restore_job}
use postgres_cluster_operato.Kube.Calm.{
  Calm, IsCalm, Calm-option, calm_rules, Calm-handle, Calm-bind, Calm-lift, Calm-deref, Calm-pure,
  Calm-bind_when,
}
use postgres_cluster_operato.Kube.Objects.{Job}
use postgres_cluster_operato.Api.Backup.{PostgresBackup}
use postgres_cluster_operato.Controllers.Restore.Instances.Progress.{
  Advances, Progresses, restore_instance-After,
}
use postgres_cluster_operato.Api.Cluster.{PostgresCluster, PostgresInstanceSpec}
use postgres_cluster_operato.Controllers.Restore.Instances.{
  restore_instances, start_job, restore_instance, update_job_status, Attempt,
}
use postgres_cluster_operato.Kube.Env.{Env, Error, panicked}
use postgres_cluster_operato.Api.Restore.{PostgresRestore, InstanceRestoreStatus}
use postgres_cluster_operato.Common.{
  List, Option, ℕ, ◌<◌, length, ◌≡◌, ◌≢◌, ◌+◌, get_elem?, get_elem?_of_lt, ◌≤◌, ◌∷◌, arith, suc, [],
  refl, ap,
}
use postgres_cluster_operato.Kube.Action

job_never_panics :
    (r : PostgresRestore) (c : PostgresCluster) (b : PostgresBackup) (i : PostgresInstanceSpec)
    → create_restore_job r c b i ≢ panicked
job_never_panics r c b i e =
    subst (Outcome (Made r b i) (¬ (Restorable b × Mountable b))) e
      (create_restore_job-Outcome r c b i)

Advances-length : (ss ts : List InstanceRestoreStatus) → Advances ss ts → length ts ≡ length ss
Advances-length [] [] a = refl
Advances-length [] (t ∷ ts) a = elim a [ ]
Advances-length (s ∷ ss) [] a = elim a [ ]
Advances-length (s ∷ ss) (t ∷ ts) (m, a) = ap suc (Advances-length ss ts a)

module _ ⦃env : Env⦄ where
  job_status-Calm :
      (r : PostgresRestore) (i : ℕ) (s : InstanceRestoreStatus) (j : Job)
      → IsCalm env
      → Calm (update_job_status r i s j)
  unfolding update_job_status
  job_status-Calm r i s j k = search calm_rules depth 9

  start_job-Calm :
      (r : PostgresRestore) (c : PostgresCluster) (b : PostgresBackup) (n : ℕ)
      (i : PostgresInstanceSpec) (s : InstanceRestoreStatus)
      → IsCalm env
      → Calm (start_job r c b n i s)
  unfolding start_job
  start_job-Calm r c b n i s k =
      Calm-handle _ _ _ (Calm-lift _ (job_never_panics r c b i)) (λ x. Calm-pure _)
        λ built. search (calm_rules, job_status-Calm) depth 12

  deref_at-Calm :
      (ss : List InstanceRestoreStatus) (i : ℕ)
      → i < length ss
      → Calm (Action.deref (get_elem? ss i))
  deref_at-Calm ss i l = let (s, e) = get_elem?_of_lt ss i l in rw e (Calm-deref s)

  instance-Calm :
      (r : PostgresRestore) (c : PostgresCluster) (b : PostgresBackup) (n : ℕ)
      (i : PostgresInstanceSpec)
      → IsCalm env
      → n < length r.status.instance_statuses
      → Calm (restore_instance r c b n i)
  unfolding restore_instance
  instance-Calm r c b n i k l =
      Calm-bind _ _ (deref_at-Calm r.status.instance_statuses n l)
        λ s. search (calm_rules, job_status-Calm, start_job-Calm) depth 9

  failure-Calm :
      (o : Option Error) (m n : Action.Action Attempt)
      → Calm m
      → Calm n
      → Calm (Action.option o m (λ _. n))
  failure-Calm o m n cm cn = Calm-option o m (λ _. n) cm (λ _. cn)

  -- Where the world does not panic and the restore has a status for each target instance from the
  -- index on, the loop over the target instances does not panic: each status that it takes is in
  -- range, also after the statuses that it writes.
  pub restore_instances-Calm :
      (r : PostgresRestore) (c : PostgresCluster) (b : PostgresBackup) (n : ℕ)
      (instances : List PostgresInstanceSpec)
      → IsCalm env
      → n + length instances ≤ length r.status.instance_statuses
      → Calm (restore_instances r c b n instances)
  unfolding restore_instances
  restore_instances-Calm r c b n [] k l = Calm-pure _
  restore_instances-Calm r c b n (i ∷ is) k l =
      Calm-bind_when (λ a. Progresses r a.restore) _ _ (restore_instance-After r c b n i)
        (instance-Calm r c b n i k (ground arith))
        λ a p.
          failure-Calm a.failure _ _
            (restore_instances-Calm a.restore c b (suc n) is k
              (rw (Advances-length _ _ p.advances) (ground arith)))
            (Calm-pure a)
