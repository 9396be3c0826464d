-- ===== src/Common/Text.antt =====
-- What `fmt` and the conversions of Go write: decimal numbers, `string(n)`, `strings.Join`.
pub mod Rounds
use Prim.Native.Nat.{◌<◌, ℕ, zero, suc, ◌+◌, ◌/◌, ◌%◌}
use Prim.Native.Char.{Char, char, IsScalar}
use Prim.Native.String.{String, ◌++◌ as ◌<>◌}
use mathlib.Core.Logic.{dite}
use mathlib.Core.List.{List, [], ◌∷◌}
use native.Mathlib.Omega.{arith}
use native.Mathlib.Decide.{dec_lt}
use postgres_cluster_operato.Common.Tests.{ltb, if◌then◌else◌}
use postgres_cluster_operato.Common.Int.{ℤ, pos, negsuc}

-- The last digit of a number below ten.
unfoldable digit : ℕ → String
digit zero = "0"
digit (suc zero) = "1"
digit (suc (suc zero)) = "2"
digit (suc (suc (suc zero))) = "3"
digit (suc (suc (suc (suc zero)))) = "4"
digit (suc (suc (suc (suc (suc zero))))) = "5"
digit (suc (suc (suc (suc (suc (suc zero)))))) = "6"
digit (suc (suc (suc (suc (suc (suc (suc zero))))))) = "7"
digit (suc (suc (suc (suc (suc (suc (suc (suc zero)))))))) = "8"
digit _ = "9"

-- Each round takes a digit off, so `suc n` rounds are enough for `n`.
unfoldable digits_from : ℕ → ℕ → String
digits_from zero n = ""
digits_from (suc f) n =
    let front = digits_from f (n / 10) <> digit (n % 10) in if ltb n 10 then digit n else front

-- `%d` on a number of ten digits at most, the range of an `int32`
unfoldable pub decimal : ℤ → String
unfolding digits_from digit
decimal (pos n) = digits_from 11 n
decimal (negsuc n) = "-" <> digits_from 11 (n + 1)

pub IsScalar-low : (n : ℕ) → n < 55296 → IsScalar n
IsScalar-low n h = ground arith

pub IsScalar-high : (n : ℕ) → 57343 < n → n < 1114112 → IsScalar n
IsScalar-high n h k = ground arith

-- The character with a number, U+FFFD where there is none.
rune_of : ℕ → Char
unfolding dec_lt
rune_of n =
    dite (dec_lt n 55296) (λ low. char n (IsScalar-low n low))
      λ _.
        dite (dec_lt 57343 n)
          (λ high.
            dite (dec_lt n 1114112) (λ top. char n (IsScalar-high n high top)) (λ _. char 65533 tt))
          (λ _. char 65533 tt)

-- The conversion `string(n)` of an integer: the text of that one character, and not its digits.
unfoldable pub string_of_rune : ℤ → String
unfolding rune_of
string_of_rune (pos n) = String.◌∷◌ (rune_of n) String.[]
string_of_rune (negsuc n) = String.◌∷◌ (char 65533 tt) String.[]

-- `strings.Join`
unfoldable pub join : List String → String → String
join [] sep = ""
join (s ∷ []) sep = s
join (s ∷ t ∷ rest) sep = s <> sep <> join (t ∷ rest) sep
