-- ===== src/Utils/Crypto/Faults.antt =====
-- That the generation of a password fails only at an answer of the source of randomness.
use mathlib.Core.Path.{subst⁻¹}
use postgres_cluster_operato.Kube.Clearing.{IsFailure}
use postgres_cluster_operato.Kube.Faults.{
  undrawn, Blames, Blames-pure, Blames-bind, Fault, undrawn, IsUndrawn,
}
use postgres_cluster_operato.Api.Meta.{ObjectMeta}
use postgres_cluster_operato.Utils.Crypto.{
  byte_at, generate_password, characters, Char, size, charset,
}
use postgres_cluster_operato.Kube.Env.{Env, Kind, History, Result, Call, ok, err, panicked}
use postgres_cluster_operato.Common.{
  String, ℕ, ◌≡◌, ℤ, none, suc, Option, ◌≤◌, arith, zero, ◌∷◌, refl, some,
}
use postgres_cluster_operato.Kube.Action

byte_at-none : (s : String) (i : ℕ) → byte_at s i ≡ none → size s ≤ i
byte_at-none String.[] i e = ground arith
byte_at-none (String.◌∷◌ c s) zero e = ground arith
byte_at-none (String.◌∷◌ c s) (suc i) e = ground (arith, byte_at-none s i e)

module _ ⦃env : Env⦄ {owner_kind : Kind} {owner : ObjectMeta} where
  module _ (f : Char → Action.Action String) (k : (c : Char) → Blames env owner_kind owner (f c))
      (h : History) where
    charset_at :
        (v : ℕ) (o : Option Char)
        → env.on_rand_int h (size charset) ≡ ok v
        → byte_at charset v ≡ o
        → let out = Action.◌>>=◌ (Action.deref o) f (Call.rand_int (size charset) ∷ h) in
          IsFailure out.0 → Fault env owner_kind owner out.1
    unfolding Action.◌>>=◌ Action.deref
    charset_at v (some c) e q x = (k c).at _ x
    charset_at v none e q x =
        undrawn _ h (subst⁻¹ (IsUndrawn (size charset)) e (byte_at-none charset v q))

    drawn_at :
        (r : Result ℕ)
        → env.on_rand_int h (size charset) ≡ r
        → let out =
            Action.◌>>=◌
              (Action.lift r)
              (λ v. Action.◌>>=◌ (Action.deref (byte_at charset v)) f)
              (Call.rand_int (size charset) ∷ h) in
          IsFailure out.0 → Fault env owner_kind owner out.1
    unfolding Action.◌>>=◌ Action.lift
    drawn_at (ok v) e x = charset_at v (byte_at charset v) e refl x
    drawn_at (err c) e x = undrawn _ h (subst⁻¹ (IsUndrawn (size charset)) e tt)
    drawn_at panicked e x = undrawn _ h (subst⁻¹ (IsUndrawn (size charset)) e tt)

  characters-Blames : (n : ℕ) → Blames env owner_kind owner (characters n)
  unfolding characters Action.◌>>=◌ Action.lift Action.rand_int
  characters-Blames zero = Blames-pure _
  characters-Blames (suc n) = record {
    at = λ h.
        drawn_at _ (λ c. Blames-bind _ _ (characters-Blames n) (λ rest. Blames-pure _)) h
          (env.on_rand_int h (size charset)) refl;
  }

  pub generate_password-Blames : (l : ℤ) → Blames env owner_kind owner (generate_password l)
  unfolding generate_password
  generate_password-Blames l = characters-Blames _
