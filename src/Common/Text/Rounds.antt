-- ===== src/Common/Text/Rounds.antt =====
-- That the rounds of `decimal` are enough.
use postgres_cluster_operato.Common.Text.{digits_from, digit}
use postgres_cluster_operato.Common.{
  decimal, ℕ, suc, ◌<◌, pos, ◌≡◌, ◌*◌, zero, ◌+◌, ◌/◌, arith, ap, ◌∙◌, if◌then◌else◌, ltb, ◌<>◌,
  ◌%◌,
}

-- The numbers below ten to the power `f + 1`, which have `f + 1` digits at most.
abbrev ten_to : ℕ → ℕ
ten_to zero = 10
ten_to (suc f) = 10 * ten_to f

div_below : (n p : ℕ) → n < 10 * p → n / 10 < p
div_below n p h = omega arith

one_digit : (f f' n : ℕ) → n < 10 → digits_from (suc f) n ≡ digits_from (suc f') n
unfolding digits_from
one_digit f f' n h = ground arith

round :
    (f f' n : ℕ)
    → digits_from f (n / 10) ≡ digits_from f' (n / 10)
    → digits_from (suc f) n ≡ digits_from (suc f') n
unfolding digits_from
round f f' n e = ap (λ front. if ltb n 10 then digit n else front <> digit (n % 10)) e

-- More rounds than a number has digits change nothing.
digits_from-more : (f g n : ℕ) → n < ten_to f → digits_from (suc f) n ≡ digits_from (suc (f + g)) n
digits_from-more zero g n h = one_digit zero (zero + g) n h
digits_from-more (suc f) g n h = round (suc f) (suc f + g) n (
    digits_from-more f g (n / 10) (div_below n (ten_to f) h)
    ∙ ap (λ k. digits_from k (n / 10)) (omega arith))

-- No number of 32 bits needs more than the eleven rounds of `decimal`.
decimal-rounds : (g n : ℕ) → n < 4294967296 → decimal (pos n) ≡ digits_from (suc (10 + g)) n
unfolding decimal
decimal-rounds g n h = digits_from-more 10 g n (omega arith)
