-- ===== src/Controllers/Backup/Target/Ranges.antt =====
-- The options of a backup after `setDefaults`.
-- The level of compression.
use postgres_cluster_operato.Controllers.Cluster.Defaults.Filled.{
  or_default-filled, or_number-twice, or_default-twice,
}
use postgres_cluster_operato.Api.Backup.{PostgresBackup}
use postgres_cluster_operato.Common.{
  ℤ, if◌then◌else◌, pos, ◌≤ℤ◌, ltb_ℤ, ◌||◌, ◌≡◌, ◌==◌, arith, false, negsuc, string_eq, refl,
}
use postgres_cluster_operato.Controllers.Backup.Target.{set_backup_defaults}

abbrev level_of : ℤ → ℤ
level_of c = if ltb_ℤ (pos 9) c || ltb_ℤ c (pos 0) then pos 1 else c

level :
    (c : ℤ) → (pos 0 ≤ℤ level_of c) × (level_of c ≤ℤ pos 9) × (level_of (level_of c) ≡ level_of c)
level (pos n) = ground arith
level (negsuc n) = ground arith

-- After setDefaults a backup has a compression from 0 to 9 and neither an empty timeout nor an
-- empty type, and doing it again changes nothing.
set_backup_defaults-ranges :
    (b : PostgresBackup)
    → (pos 0 ≤ℤ (set_backup_defaults b).spec.options.compression)
      × ((set_backup_defaults b).spec.options.compression ≤ℤ pos 9)
      × (((set_backup_defaults b).spec.options.timeout == "") ≡ false)
      × (((set_backup_defaults b).spec.type == "") ≡ false)
      × (set_backup_defaults (set_backup_defaults b) ≡ set_backup_defaults b)
unfolding set_backup_defaults
set_backup_defaults-ranges b = (
  (level b.spec.options.compression).0,
  (level b.spec.options.compression).1,
  or_default-filled b.spec.options.timeout "1h" refl,
  or_default-filled b.spec.type "full" refl,
  rw
      (
        or_number-twice b.spec.options.parallel_jobs (pos 1),
        or_default-twice b.spec.options.timeout "1h",
        or_default-twice b.spec.type "full",
        (level b.spec.options.compression).2,
      )
      refl,
)
