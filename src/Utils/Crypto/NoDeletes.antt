-- ===== src/Utils/Crypto/NoDeletes.antt =====
-- The generation of a password deletes nothing.
use postgres_cluster_operato.Common.{ℤ}
use postgres_cluster_operato.Kube.Env.{Env}
use postgres_cluster_operato.Kube.Emits.{Emits, DeletesNothing}
use postgres_cluster_operato.Utils.Crypto.{generate_password}
use postgres_cluster_operato.Utils.Crypto.Draws.{generate_password-Emits}

module _ ⦃env : Env⦄ where
  pub generate_password-DeletesNothing : (l : ℤ) → Emits DeletesNothing (generate_password l)
  generate_password-DeletesNothing = generate_password-Emits (λ n. tt)
