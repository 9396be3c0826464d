-- ===== src/Common/Int.antt =====
-- Signed integers over the native numbers, and the wrap-around of Go's `int32` and `int64`.
use Prim.Native.Nat.{ℕ, suc, ◌+◌, ◌-◌, ◌*◌, ◌%◌, ◌≤◌, ◌<◌, compare, Ordering}
use mathlib.Core.Path.{◌≡◌}
use mathlib.Core.Logic.{◌↔◌}
use mathlib.Core.Bool.{Bool, true, false}
use native.Mathlib.Omega.{arith}
use postgres_cluster_operato.Common.Tests.{Comparable, ltb, leb, if◌then◌else◌}

-- `negsuc n` is -(n + 1).
pub data ℤ : Type 0 where
  pos : ℕ → ℤ
  negsuc : ℕ → ℤ

abbrev pub pos_part : ℤ → ℕ
pos_part (pos n) = n
pos_part (negsuc n) = 0

abbrev pub neg_part : ℤ → ℕ
neg_part (pos n) = 0
neg_part (negsuc n) = suc n

-- a - b, as an integer
abbrev pub sub_ℕ : ℕ → ℕ → ℤ
sub_ℕ a b = if leb b a then pos (a - b) else negsuc (b - a - 1)

infixl 65 ◌+ℤ◌
infixl 70 ◌*ℤ◌
infix 50 ◌≤ℤ◌
unfoldable pub ◌+ℤ◌ : ℤ → ℤ → ℤ
a +ℤ b = sub_ℕ (pos_part a + pos_part b) (neg_part a + neg_part b)

unfoldable pub ◌*ℤ◌ : ℤ → ℤ → ℤ
a *ℤ b =
    sub_ℕ (pos_part a * pos_part b + neg_part a * neg_part b)
      (pos_part a * neg_part b + neg_part a * pos_part b)

abbrev pub ◌≤ℤ◌ : ℤ → ℤ → Type 0
a ≤ℤ b = pos_part a + neg_part b ≤ pos_part b + neg_part a

abbrev pub ltb_ℤ : ℤ → ℤ → Bool
ltb_ℤ a b = ltb (pos_part a + neg_part b) (pos_part b + neg_part a)

abbrev int_beq : ℤ → ℤ → Bool
int_beq (pos a) (pos b) = elim (compare a b) [ Ordering.eq ↦ true | _ ↦ false ]
int_beq (pos a) (negsuc b) = false
int_beq (negsuc a) (pos b) = false
int_beq (negsuc a) (negsuc b) = elim (compare a b) [ Ordering.eq ↦ true | _ ↦ false ]

pub int_beq_iff : (a b : ℤ) → (int_beq a b ≡ true) ↔ (a ≡ b)
int_beq_iff (pos a) (pos b) = ground arith
int_beq_iff (pos a) (negsuc b) = ground arith
int_beq_iff (negsuc a) (pos b) = ground arith
int_beq_iff (negsuc a) (negsuc b) = ground arith

instance abbrev pub int_eq : Comparable ℤ
int_eq = record { same = int_beq; same_iff = int_beq_iff }

-- The two's complement reading of an integer modulo `2 * half`.
abbrev wrap : ℕ → ℤ → ℤ
wrap half a =
    let m = (pos_part a + (half + half) - neg_part a % (half + half)) % (half + half) in
    if ltb m half then pos m else negsuc (half + half - m - 1)

unfoldable pub int32 : ℤ → ℤ
int32 a = wrap 2147483648 a

unfoldable pub int64 : ℤ → ℤ
int64 a = wrap 9223372036854775808 a

-- The values of an `int32`.
abbrev pub IsInt32 : ℤ → Type 0
IsInt32 a = (pos_part a < 2147483648) × (neg_part a ≤ 2147483648)

pub int32_of_IsInt32 : (a : ℤ) → IsInt32 a → int32 a ≡ a
unfolding int32
int32_of_IsInt32 (pos n) h = ground arith
int32_of_IsInt32 (negsuc n) h = ground arith
