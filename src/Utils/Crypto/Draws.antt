-- ===== src/Utils/Crypto/Draws.antt =====
-- What the generation of a password calls: the source of randomness, and nothing else.
use postgres_cluster_operato.Common.{ℕ, zero, suc, ℤ}
use postgres_cluster_operato.Kube.Env.{Env, Call}
use postgres_cluster_operato.Kube.Emits.{Emits, emits_rules, given}
use postgres_cluster_operato.Utils.Crypto.{characters, generate_password}

module _ ⦃env : Env⦄ {P : Call → Type 0} (draws : (n : ℕ) → P (Call.rand_int n)) where
  characters-Emits : (n : ℕ) → Emits P (characters n)
  unfolding characters
  characters-Emits zero = search (emits_rules, draws)
  characters-Emits (suc n) = given (characters-Emits n) λ ih. search (emits_rules, draws) depth 9

  pub generate_password-Emits : (l : ℤ) → Emits P (generate_password l)
  unfolding generate_password
  generate_password-Emits l = characters-Emits _
