-- ===== src/Postgres/Backup/Compression.antt =====
-- The compression level of a physical backup.
use text.Mathlib.TextLemmas.{append_cancel_left}
use mathlib.Core.Bool.{true≢false}
use postgres_cluster_operato.Api.Cluster.{PostgresCluster, PostgresInstanceSpec}
use postgres_cluster_operato.Api.Backup.{PostgresBackup}
use postgres_cluster_operato.Postgres.Backup.{command_of}
use postgres_cluster_operato.Common.{
  string_of_rune, ℕ, decimal, ◌≤◌, pos, Option, ◌≢◌, ◌==◌, ◌≡◌, eq_iff, false, sym, suc, String,
  ◌∙◌, arith, get_elem?, string_eq, some, ◌<>◌, zero, refl,
}

-- The character with a number below ten is not its digit.
rune_test : (n : ℕ) → n ≤ 9 → (string_of_rune (pos n) == decimal (pos n)) ≡ false
unfolding string_of_rune decimal
rune_test zero h = refl
rune_test (suc zero) h = refl
rune_test (suc (suc zero)) h = refl
rune_test (suc (suc (suc zero))) h = refl
rune_test (suc (suc (suc (suc zero)))) h = refl
rune_test (suc (suc (suc (suc (suc zero))))) h = refl
rune_test (suc (suc (suc (suc (suc (suc zero)))))) h = refl
rune_test (suc (suc (suc (suc (suc (suc (suc zero))))))) h = refl
rune_test (suc (suc (suc (suc (suc (suc (suc (suc zero)))))))) h = refl
rune_test (suc (suc (suc (suc (suc (suc (suc (suc (suc zero))))))))) h = refl
rune_test (suc (suc (suc (suc (suc (suc (suc (suc (suc (suc n)))))))))) h = absurd (omega arith)

rune-decimal : (n : ℕ) → n ≤ 9 → string_of_rune (pos n) ≢ decimal (pos n)
rune-decimal n h e =
    let t = (eq_iff (string_of_rune (pos n)) (decimal (pos n))).1 e in
    true≢false (sym t ∙ rune_test n h)

-- The compression argument of a backup that is not logical, with a compression from 0 to 9, is
-- never the compression written as a digit.
pub command_of-compression :
    (b : PostgresBackup) (c : PostgresCluster) (i : Option PostgresInstanceSpec) (n : ℕ)
    → (b.spec.type == "logical") ≡ false
    → b.spec.options.compression ≡ pos n
    → n ≤ 9
    → (a : String) × (get_elem? (command_of b c i).1 6 ≡ some a)
      × (a ≢ "--compress=" <> decimal (pos n))
unfolding command_of
command_of-compression b c i n physical e h =
    simp (physical, e)
      (
        "--compress=" <> string_of_rune (pos n),
        refl,
        λ q. rune-decimal n h (append_cancel_left _ _ _ q),
      )
