-- ===== src/Kube/Resources/NoDeletes.antt =====
-- That `CreateOrUpdate` makes no delete call.
use postgres_cluster_operato.Kube.Env.{Env, Kind, Obj}
use postgres_cluster_operato.Kube.Emits.{Emits, emits_rules, DeletesNothing}
use postgres_cluster_operato.Kube.Resources.{create_or_update}

module _ ⦃env : Env⦄ where
  pub create_or_update-DeletesNothing :
      (k : Kind) (o : Obj k) → Emits DeletesNothing (create_or_update k o)
  unfolding create_or_update
  create_or_update-DeletesNothing k o = search (emits_rules, tt)
