-- ===== src/Utils/Crypto/Outcome.antt =====
-- What a generated password looks like, for a source of randomness that keeps its promise.
-- The character is one of the text's.
use postgres_cluster_operato.Kube.Outcome.{Outcome, Outcome-bind, Outcome-weaken}
use postgres_cluster_operato.Utils.Crypto.{
  characters, generate_password, Char, size, charset, byte_at, effective_length,
}
use postgres_cluster_operato.Kube.Env.{Env, History, Result, Error, ok, err, panicked}
use postgres_cluster_operato.Common.{
  String, ℕ, ◌<◌, ◌≡◌, ℤ, ◌≤◌, ◌⊎◌, ◌≢◌, pos, some, ◌≤ℤ◌, suc, inl, ap, arith, zero, inr, refl,
  negsuc,
}
use postgres_cluster_operato.Kube.Action

abbrev pub InText : Char → String → Type 0
InText c String.[] = ⊥
InText c (String.◌∷◌ d s) = (d ≡ c) ⊎ InText c s

abbrev pub AllIn : String → String → Type 0
AllIn String.[] s = Unit
AllIn (String.◌∷◌ c t) s = InText c s × AllIn t s

-- `rand.Int(rand.Reader, bound)` answers below the bound, or with an error.
pub record IsRandom (env : Env) : Type 0 where
  pub below : (h : History) (bound v : ℕ) → env.on_rand_int h bound ≡ ok v → v < bound
  pub returns : (h : History) (bound : ℕ) → env.on_rand_int h bound ≢ panicked

byte_at_lt : (s : String) (i : ℕ) → i < size s → (c : Char) × (byte_at s i ≡ some c) × InText c s
byte_at_lt String.[] i h = elim h [ ]
byte_at_lt (String.◌∷◌ c s) zero h = (c, refl, inl refl)
byte_at_lt (String.◌∷◌ c s) (suc i) h =
    let (d, e, m) = byte_at_lt s i (ground arith) in (d, e, inr m)

module _ ⦃env : Env⦄ where
  -- The source of randomness answered with an error.
  abbrev pub RandomFailed : Type 0
  RandomFailed = (h : History) × (e : Error) × (env.on_rand_int h (size charset) ≡ err e)

  rand_at :
      (h : History) (r : Result ℕ)
      → IsRandom env
      → env.on_rand_int h (size charset) ≡ r
      → Outcome (λ v. v < size charset) RandomFailed r
  rand_at h (ok v) ran e = ran.below h (size charset) v e
  rand_at h (err x) ran e = (h, x, e)
  rand_at h panicked ran e = elim (ran.returns h (size charset) e) [ ]

  deref_at :
      (i : ℕ) (h : History)
      → i < size charset
      → Outcome (λ c. InText c charset) RandomFailed (Action.deref (byte_at charset i) h).0
  unfolding Action.deref
  deref_at i h l = let (c, e, m) = byte_at_lt charset i l in rw e m

  characters-Outcome :
      (n : ℕ) (h : History)
      → IsRandom env
      → Outcome (λ s. (size s ≡ n) × AllIn s charset) RandomFailed (characters n h).0
  unfolding characters Action.pure Action.rand_int
  characters-Outcome zero h ran = (refl, tt)
  characters-Outcome (suc n) h ran = Outcome-bind _ _ _ _ _ h (rand_at h _ ran refl) λ i h' l.
      Outcome-bind _ _ _ _ _ h' (deref_at i h' l) λ c h'' m.
        Outcome-bind _ _ _ _ _ h'' (characters-Outcome n h'' ran) λ s h''' k. (ap suc k.0, (m, k.1))

  bounds :
      (length : ℤ) (n : ℕ)
      → n ≡ effective_length length
      → (8 ≤ n) × ((length ≡ pos n) ⊎ ((n ≡ 8) × (length ≤ℤ pos 7)))
  bounds (pos l) n e = ground arith
  bounds (negsuc l) n e = ground arith

  -- With a source of randomness that answers below the bound or with an error, a generated
  -- password has the length asked for, or 8 where that is less, and only characters of the
  -- charset; the generation fails only where the source does and never panics.
  pub generate_password-Outcome :
      (length : ℤ) (h : History)
      → IsRandom env
      → Outcome
          (λ s.
            ((8 ≤ size s) × ((length ≡ pos (size s)) ⊎ ((size s ≡ 8) × (length ≤ℤ pos 7))))
            × AllIn s charset)
          RandomFailed
          (generate_password length h).0
  unfolding generate_password
  generate_password-Outcome length h ran =
      Outcome-weaken (λ s. (size s ≡ effective_length length) × AllIn s charset) _ RandomFailed _
        (λ s k. (bounds length (size s) k.0, k.1))
        (characters-Outcome (effective_length length) h ran)
