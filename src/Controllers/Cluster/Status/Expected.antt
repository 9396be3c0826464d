-- ===== src/Controllers/Cluster/Status/Expected.antt =====
-- The number of replicas that a cluster expects.
-- The replicas of the instances, one where an instance does not say.
use postgres_cluster_operato.Controllers.Cluster.Sets.{or_cluster}
use postgres_cluster_operato.Api.Cluster.{PostgresInstanceSpec}
use postgres_cluster_operato.Common.{
  List, int32, ◌+ℤ◌, All, ℕ, ◌+◌, neg_part, ◌∷◌, ℤ, ◌≡◌, pos_part, ◌<◌, pos, arith, [], negsuc, ◌∙◌,
}
use postgres_cluster_operato.Controllers.Cluster.Status.{expected_replicas}

abbrev pub replica_count : List PostgresInstanceSpec → ℕ
replica_count [] = 0
replica_count (i ∷ is) = pos_part (or_cluster i.replicas (pos 1)) + replica_count is

-- No instance asks for a negative number.
abbrev pub AllCounted : List PostgresInstanceSpec → Type 0
AllCounted = All (λ i. neg_part (or_cluster i.replicas (pos 1)) ≡ 0)

int32_add :
    (a : ℕ) (b : ℤ)
    → neg_part b ≡ 0
    → a + pos_part b < 2147483648
    → int32 (pos a +ℤ b) ≡ pos (a + pos_part b)
unfolding int32 ◌+ℤ◌
int32_add a (pos b) e h = ground arith
int32_add a (negsuc b) e h = ground arith

-- Where no instance asks for a negative number of replicas and the sum is below 2147483648, the
-- expected number of replicas is the sum, one for an instance that asks for none.
pub expected_replicas-sum :
    (is : List PostgresInstanceSpec) (total : ℕ)
    → AllCounted is
    → total + replica_count is < 2147483648
    → expected_replicas (pos total) is ≡ pos (total + replica_count is)
unfolding expected_replicas
expected_replicas-sum [] total c h = ground arith
expected_replicas-sum (i ∷ is) total (e, c) h =
    rw (int32_add total (or_cluster i.replicas (pos 1)) e (ground arith)) (
      expected_replicas-sum is (total + pos_part (or_cluster i.replicas (pos 1))) c (ground arith)
      ∙ ground arith)
