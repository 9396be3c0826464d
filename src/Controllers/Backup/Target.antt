-- ===== src/Controllers/Backup/Target.antt =====
-- `setDefaults`, `findInstanceByName` and `getTargetInstance`.
pub mod Search
pub mod Ranges
use postgres_cluster_operato.Common.{
  String, ◌<>◌, ℤ, pos, ltb_ℤ, join, Bool, ◌||◌, Option, none, some, List, [], ◌∷◌, ◌==◌, string_eq,
  if◌then◌else◌,
}
use postgres_cluster_operato.Api.Selectors.{InstanceSelector}
use postgres_cluster_operato.Api.Cluster.{PostgresCluster, PostgresInstanceSpec}
use postgres_cluster_operato.Api.Backup.{PostgresBackup, PostgresBackupSpec, BackupOptions}
use postgres_cluster_operato.Kube.Env.{Error, Result, ok, err, panicked}
use postgres_cluster_operato.Kube.Action.{error}
use postgres_cluster_operato.Controllers.Cluster.Defaults.{or_default, or_number}

abbrev default_options : BackupOptions → BackupOptions
default_options o = record o {
  compression =
      if ltb_ℤ (pos 9) o.compression || ltb_ℤ o.compression (pos 0) then pos 1 else o.compression;
  parallel_jobs = or_number o.parallel_jobs (pos 1);
  timeout = or_default o.timeout "1h";
}

unfoldable pub set_backup_defaults : PostgresBackup → PostgresBackup
set_backup_defaults backup = record backup {
  spec = record (backup.spec) {
    type = or_default backup.spec.type "full";
    options = default_options backup.spec.options;
  };
}

-- The first instance of that name.
unfoldable pub find_instance : String → List PostgresInstanceSpec → Option PostgresInstanceSpec
find_instance name [] = none
find_instance name (instance ∷ rest) =
    if instance.name == name then some instance else find_instance name rest

-- The instances stand for the cluster that lists them.
unfoldable pub find_instance_by_name :
    List PostgresInstanceSpec → String → Result PostgresInstanceSpec
unfolding find_instance
find_instance_by_name instances name = elim (find_instance name instances) [
  | none ↦ err (error ("instance \"" <> name <> "\" not found in cluster"))
  | some instance ↦ ok instance
]

-- The loop over the names, which takes the first that is found.
unfoldable pub first_found : List PostgresInstanceSpec → List String → Option PostgresInstanceSpec
unfolding find_instance
first_found instances [] = none
first_found instances (name ∷ rest) =
    let later = first_found instances rest in
    elim (find_instance name instances) [ none ↦ later | some instance ↦ some instance ]

abbrev pub selected_names : Option InstanceSelector → List String
selected_names none = []
selected_names (some selector) = selector.names

-- `ok none` is the nil instance of a cluster that lists none. With no names it is the instance
-- `primary`.
unfoldable pub target_among :
    List PostgresInstanceSpec → List String → Result (Option PostgresInstanceSpec)
unfolding find_instance_by_name first_found
target_among [] names = ok none
target_among (i ∷ is) [] = elim (find_instance_by_name (i ∷ is) "primary") [
  | ok instance ↦ ok (some instance)
  | err e ↦ err e
  | panicked ↦ panicked
]
target_among (i ∷ is) (name ∷ rest) = elim (first_found (i ∷ is) (name ∷ rest)) [
  | some instance ↦ ok (some instance)
  | none ↦ err (
      error (
        "none of the specified instances (["
        <> join (name ∷ rest) " "
        <> "]) were found in the cluster"))
]

unfoldable pub get_target_instance :
    PostgresBackup → PostgresCluster → Result (Option PostgresInstanceSpec)
unfolding target_among
get_target_instance backup cluster =
    target_among cluster.spec.instances (selected_names backup.spec.instances)
