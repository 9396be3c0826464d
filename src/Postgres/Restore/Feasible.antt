-- ===== src/Postgres/Restore/Feasible.antt =====
-- Which backups have a restore command and a volume.
-- The type of a backup that has a restore command.
use postgres_cluster_operato.Kube.Env.{Error, err, ok}
use postgres_cluster_operato.Kube.Outcome.{Outcome}
use postgres_cluster_operato.Api.Cluster.{DatabaseSpec}
use postgres_cluster_operato.Api.Restore.{RestoreOptions}
use postgres_cluster_operato.Common.{
  ◌≡◌, ◌⊎◌, value, ◌≢◌, arith, ◌∷◌, eq_iff, String, [], if◌then◌else◌, ◌==◌, string_eq,
}
use postgres_cluster_operato.Api.Backup.{PostgresBackup}
use postgres_cluster_operato.Kube.Pods.{PodSpec, Container}
use postgres_cluster_operato.Postgres.Restore.{
  build_restore_command, add_to_pod, format_options, backup_volume,
}

abbrev pub Restorable : PostgresBackup → Type 0
Restorable b = (b.spec.type ≡ "logical") ⊎ (b.spec.type ≡ "physical")

-- A storage that a volume can be made of.
abbrev pub Mountable : PostgresBackup → Type 0
Mountable b =
    ((b.spec.storage.type ≡ "local") × (value "pvcName" b.spec.storage.config ≢ ""))
    ⊎ (b.spec.storage.type ≡ "s3")

pub build_restore_command-type :
    (b : PostgresBackup) (o : RestoreOptions) (d : DatabaseSpec)
    → Outcome (λ cmd. Restorable b) (¬ (Restorable b)) (build_restore_command b o d)
unfolding build_restore_command format_options
build_restore_command-type b o d =
    ground (arith, eq_iff b.spec.type "logical", eq_iff b.spec.type "physical")

-- A choice between two volumes and an error.
volume_choice :
    (A : Type 0) (t pvc : String) (x y : A) (e f : Error)
    → Outcome
        (λ _. ((t ≡ "local") × (pvc ≢ "")) ⊎ (t ≡ "s3"))
        (¬ (((t ≡ "local") × (pvc ≢ "")) ⊎ (t ≡ "s3")))
        (if t == "local"
          then if pvc == "" then err e else ok x
          else if t == "s3"
          then ok y
          else err f)
volume_choice A t pvc x y e f =
    ground (arith, eq_iff t "local", eq_iff t "s3", eq_iff pvc "", eq_iff "local" "s3")

-- A pod with one container gets the volume of a backup exactly where one can be made.
pub backup_volume-Mountable :
    (b : PostgresBackup) (c : Container) (pod : PodSpec)
    → Outcome
        (λ _. Mountable b)
        (¬ (Mountable b))
        (backup_volume b (record pod { containers = c ∷ [] }))
unfolding backup_volume add_to_pod
backup_volume-Mountable b c pod =
    volume_choice PodSpec b.spec.storage.type (value "pvcName" b.spec.storage.config) _ _ _ _
