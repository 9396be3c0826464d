-- ===== src/Controllers/User/Reconcile/NoDeletes.antt =====
-- What `Reconcile` of a user deletes.
use postgres_cluster_operato.Controllers.User.Reconcile.Provisions.{
  access-Provisions, reconcile_user-Provisions,
}
use postgres_cluster_operato.Controllers.User.Reconcile.{reconcile_access, reconcile_user}
use postgres_cluster_operato.Api.Cluster.{PostgresCluster}
use postgres_cluster_operato.Kube.Emits.{DeletesNothing, Emits, Emits-weaken}
use postgres_cluster_operato.Common.{Option, ◌≡◌, none}
use postgres_cluster_operato.Postgres.Client.Provisions.{Provisions}
use postgres_cluster_operato.Api.User.{PostgresUser}
use postgres_cluster_operato.Api.Meta.{NamespacedName}
use postgres_cluster_operato.Kube.Env.{Env, Call, History, postgres_user, ok}

-- Setting a user up deletes nothing.
Provisions-DeletesNothing : (env : Env) (c : Call) → Provisions env c → DeletesNothing c
Provisions-DeletesNothing env (Call.delete k key) p = elim p [ ]
Provisions-DeletesNothing env _ p = tt

module _ ⦃env : Env⦄ where
  pub access-DeletesNothing :
      (u : PostgresUser) (c : Option PostgresCluster) → Emits DeletesNothing (reconcile_access u c)
  access-DeletesNothing u c = Emits-weaken _ (Provisions-DeletesNothing env) (access-Provisions u c)

  -- Reconcile of a user makes no delete call, where the server's answers for it carry no deletion
  -- timestamp.
  reconcile_user-DeletesNothing :
      (key : NamespacedName)
      → ((h : History) (u : PostgresUser)
          → env.on_get h postgres_user key ≡ ok u
          → u.metadata.deletion_timestamp ≡ none)
      → Emits DeletesNothing (reconcile_user key)
  reconcile_user-DeletesNothing key unmarked =
      Emits-weaken _ (Provisions-DeletesNothing env) (reconcile_user-Provisions key unmarked)
