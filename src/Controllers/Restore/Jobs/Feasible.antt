-- ===== src/Controllers/Restore/Jobs/Feasible.antt =====
-- Which backups a restore job can be made of.
use mathlib.Core.Path.{subst}
use postgres_cluster_operato.Controllers.Cluster.Defaults.{or_default}
use postgres_cluster_operato.Controllers.Cluster.Sets.{or_cluster}
use postgres_cluster_operato.Controllers.Backup.Target.{set_backup_defaults}
use postgres_cluster_operato.Postgres.Restore.Feasible.{
  Restorable, Mountable, build_restore_command-type, backup_volume-Mountable,
}
use postgres_cluster_operato.Api.Cluster.{PostgresCluster, PostgresInstanceSpec}
use postgres_cluster_operato.Api.Restore.{PostgresRestore}
use postgres_cluster_operato.Kube.Pods.{PodSpec}
use postgres_cluster_operato.Kube.Outcome.{Outcome, Outcome-weaken}
use postgres_cluster_operato.Common.{String, ◌≡◌, ◌≢◌, ap, refl, ◌⊎◌, inl, arith, eq_iff, inr}
use postgres_cluster_operato.Postgres.Restore.{add_backup_volume_to_job}
use postgres_cluster_operato.Kube.Env.{Result, ok, err, panicked}
use postgres_cluster_operato.Api.Backup.{PostgresBackup}
use postgres_cluster_operato.Kube.Objects.{Job}
use postgres_cluster_operato.Controllers.Restore.Jobs.{
  create_restore_job, restore_job, or_return, restore_job_name, restore_container,
}
use postgres_cluster_operato.Api.Meta.{ObjectMeta}

job_of :
    (j : Job) (b : PostgresBackup) (r : Result PodSpec) (P : Type 0)
    → Outcome (λ _. P) (¬ P) r
    → Outcome
        (λ k. P × (k.metadata ≡ j.metadata))
        (¬ P)
        (or_return "failed to add backup volume"
          (elim r [
            | ok pod ↦ ok (record j { template = record (j.template) { spec = pod } })
            | err e ↦ err e
            | panicked ↦ panicked
          ])
          ok)
job_of j b (ok pod) P o = (o, refl)
job_of j b (err e) P o = o
job_of j b panicked P o = o

both :
    (m : ObjectMeta) (r : Result Job) (P Q : Type 0)
    → P
    → Outcome (λ k. Q × (k.metadata ≡ m)) (¬ Q) r
    → Outcome (λ k. (P × Q) × (k.metadata ≡ m)) (¬ (P × Q)) r
both m (ok k) P Q p (q, e) = ((p, q), e)
both m (err e) P Q p n = λ w. n w.1
both m panicked P Q p o = o

command_then :
    (m : ObjectMeta) (r : Result String) (f : String → Result Job) (P Q : Type 0)
    → Outcome (λ _. P) (¬ P) r
    → ((cmd : String) → Outcome (λ k. Q × (k.metadata ≡ m)) (¬ Q) (f cmd))
    → Outcome
        (λ k. (P × Q) × (k.metadata ≡ m))
        (¬ (P × Q))
        (or_return "failed to build restore command" r f)
command_then m (ok cmd) f P Q p k = both m (f cmd) P Q p (k cmd)
command_then m (err e) f P Q n k = λ w. n w.0
command_then m panicked f P Q p k = p

-- A job that restores the backup on the instance.
abbrev pub Made : PostgresRestore → PostgresBackup → PostgresInstanceSpec → Job → Type 0
Made r b i j = (Restorable b × Mountable b) × (j.metadata.name ≡ restore_job_name r i)

job-metadata :
    (r : PostgresRestore) (c : PostgresCluster) (b : PostgresBackup) (i : PostgresInstanceSpec)
    → Outcome
        (λ k. (Restorable b × Mountable b) × (k.metadata ≡ (restore_job r c b i "").metadata))
        (¬ (Restorable b × Mountable b))
        (create_restore_job r c b i)
unfolding create_restore_job restore_job add_backup_volume_to_job
job-metadata r c b i =
    command_then (restore_job r c b i "").metadata _ _ (Restorable b) (Mountable b)
      (build_restore_command-type b r.spec.options (or_cluster i.database c.spec.database))
      (λ cmd. job_of (restore_job r c b i cmd) b _ (Mountable b) (
        backup_volume-Mountable b (restore_container c cmd)
          (restore_job r c b i cmd).template.spec))

-- The name and the namespace of a job that was made.
pub made_metadata :
    (r : PostgresRestore) (c : PostgresCluster) (b : PostgresBackup) (i : PostgresInstanceSpec)
    (j : Job)
    → create_restore_job r c b i ≡ ok j
    → (j.metadata.namespace ≡ r.metadata.namespace) × (j.metadata.name ≡ restore_job_name r i)
unfolding restore_job
made_metadata r c b i j e =
    let m =
      subst
        (Outcome
          (λ (k : Job).
            (Restorable b × Mountable b) × (k.metadata ≡ (restore_job r c b i "").metadata))
          (¬ (Restorable b × Mountable b)))
        e (job-metadata r c b i) in
    (ap (λ m. m.namespace) m.1, ap (λ m. m.name) m.1)

-- A restore job is made only of a backup of type logical or physical on a local storage with a
-- claim or on s3, it has the name of the restore and the instance, its making fails only where the
-- backup is not such, and it never panics.
pub create_restore_job-Outcome :
    (r : PostgresRestore) (c : PostgresCluster) (b : PostgresBackup) (i : PostgresInstanceSpec)
    → Outcome (Made r b i) (¬ (Restorable b × Mountable b)) (create_restore_job r c b i)
unfolding restore_job
create_restore_job-Outcome r c b i =
    Outcome-weaken
      (λ (k : Job). (Restorable b × Mountable b) × (k.metadata ≡ (restore_job r c b i "").metadata))
      (Made r b i) (¬ (Restorable b × Mountable b)) (create_restore_job r c b i)
      (λ k o. (o.0, ap (λ m. m.name) o.1)) (job-metadata r c b i)

not_full :
    (t : String)
    → t ≡ ""
    → ¬ ((or_default t "full" ≡ "logical") ⊎ (or_default t "full" ≡ "physical"))
not_full t e (inl f) = ground (arith, eq_iff t "", eq_iff "full" "logical")
not_full t e (inr f) = ground (arith, eq_iff t "", eq_iff "full" "physical")

-- Of a backup whose type is left empty, once setDefaults has filled it in, no restore job can be
-- made.
pub full-unrestorable :
    (r : PostgresRestore) (c : PostgresCluster) (b : PostgresBackup) (i : PostgresInstanceSpec)
    (j : Job)
    → b.spec.type ≡ ""
    → create_restore_job r c (set_backup_defaults b) i ≢ ok j
unfolding set_backup_defaults
full-unrestorable r c b i j e o =
    not_full b.spec.type e
      (subst
        (λ x.
          Outcome (Made r (set_backup_defaults b) i)
            (¬ (Restorable (set_backup_defaults b) × Mountable (set_backup_defaults b))) x)
        o (create_restore_job-Outcome r c (set_backup_defaults b) i)).0.0
