-- ===== src/Utils/Crypto.antt =====
-- internal/utils/crypto.go: `GeneratePassword`. A password is a text of one-byte characters.
pub mod Draws
pub mod NoDeletes
pub mod Faults
pub mod Outcome
use Prim.Native.Char.{Char}
use postgres_cluster_operato.Common.{
  ℕ, zero, suc, ℤ, pos, pos_part, ltb_ℤ, String, Option, none, some, if◌then◌else◌,
}
use postgres_cluster_operato.Kube.Env.{Env}
use postgres_cluster_operato.Kube.Action.{Action, ◌>>=◌, pure, deref, rand_int}

abbrev pub charset : String
charset = "abcdefghijklmnopqrstuvwxyzABCDEFGHIJKLMNOPQRSTUVWXYZ0123456789!@#$%^&*"

-- `len(text)`, each character being one byte
abbrev pub size : String → ℕ
size String.[] = 0
size (String.◌∷◌ _ s) = suc (size s)

-- `text[i]`
abbrev pub byte_at : String → ℕ → Option Char
byte_at String.[] i = none
byte_at (String.◌∷◌ c s) zero = some c
byte_at (String.◌∷◌ c s) (suc i) = byte_at s i

-- `if length < 8 { length = 8 }`
abbrev pub effective_length : ℤ → ℕ
effective_length length = pos_part (if ltb_ℤ length (pos 8) then pos 8 else length)

module _ ⦃env : Env⦄ where
  -- The loop over `range password`, for the characters that are left.
  unfoldable pub characters : ℕ → Action String
  characters zero = pure ""
  characters (suc n) = do
    num ← rand_int (size charset)
    c ← deref (byte_at charset num)
    rest ← characters n
    pure (String.◌∷◌ c rest)

  unfoldable pub generate_password : ℤ → Action String
  unfolding characters
  generate_password length = characters (effective_length length)
