-- ===== src/Postgres/Backup/Names.antt =====
-- The names of backup jobs.
use postgres_cluster_operato.Postgres.Backup.{job_name_of}
use postgres_cluster_operato.Common.{
  String, ◌≤◌, ℕ, arith, ◌≡◌, ◌<>◌, Bool-cases, ◌-◌, ltb, refl, inl, inr,
}
use Prim.Native.Char.{Char, len_utf8}
use Prim.Native.Nat.{compare as compare_ℕ, Ordering}
use Prim.Native.String.{len, slice, fits}
use Prim.Native.String.len as len_lem
use Prim.Native.String.slice as slice_lem
use text.Mathlib.TextEquality.{slice-prefix}
use text.Mathlib.TextBridge.{IsPrefix}
use text.Mathlib.TextLemmas.{append-nil}

-- A character that does not fit ends the text.
len-fits :
    (c : Char) (s : String) (k : ℕ) (o : Ordering)
    → compare_ℕ (len_utf8 c) k ≡ o
    → len s ≤ k - len_utf8 c
    → len (fits o c s) ≤ k
len-fits c s k Ordering.lt e h = ground (arith, len_lem.cons c s)
len-fits c s k Ordering.eq e h = ground (arith, len_lem.cons c s)
len-fits c s k Ordering.gt e h = ground (arith, len_lem.nil)

len-slice : (s : String) (k : ℕ) → len (slice s 0 k) ≤ k
len-slice String.[] k = rw (slice_lem.nil 0 k) (rw len_lem.nil (omega arith))
len-slice (String.◌∷◌ c s) k =
    rw (slice_lem.cons-zero c s k) (len-fits c _ k _ refl (len-slice s (k - len_utf8 c)))

-- The name of a backup job has 63 bytes at most and is a prefix of the backup's name with `-job`.
pub job_name_of-bound :
    (name : String) → (len (job_name_of name) ≤ 63) × IsPrefix (job_name_of name) (name <> "-job")
unfolding job_name_of
job_name_of-bound name = elim (Bool-cases (ltb 63 (len (name <> "-job")))) [
  | inl e ↦ simp e (len-slice _ 63, slice-prefix _ 63)
  | inr e ↦ simp e (ground arith, ("", append-nil _))
]
