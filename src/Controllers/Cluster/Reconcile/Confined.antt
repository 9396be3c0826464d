-- ===== src/Controllers/Cluster/Reconcile/Confined.antt =====
-- Where the whole of `Reconcile` of a cluster writes.
use postgres_cluster_operato.Controllers.Cluster.Reconcile.OwnNamespace.{
  reconcile_active-InNamespace,
}
use mathlib.Core.Path.{subst}
use postgres_cluster_operato.Controllers.Cluster.Deletion.{cluster_finalizer, handle_deletion}
use postgres_cluster_operato.Kube.Returns.{Returns-if, Returns-pure}
use postgres_cluster_operato.Common.{◌≡◌, ap, if◌then◌else◌, ◌∙◌, is_some}
use postgres_cluster_operato.Kube.Emits.{
  Returns, Emits, Emits-if, Emits-handle_when, Emits-pure, Emits-get, Emits-raise, Emits-update,
  Emits-bind_when,
}
use postgres_cluster_operato.Kube.Keys.{MarksOnly}
use postgres_cluster_operato.Kube.Namespaces.{KeepsNamespace, InNamespace}
use postgres_cluster_operato.Controllers.Cluster.Reconcile.NoDeletes.{
  IsUnmarked, IsLive, get-IsLive, ensure_finalizer-IsLive,
}
use postgres_cluster_operato.Api.Cluster.{PostgresCluster}
use postgres_cluster_operato.Controllers.Cluster.Defaults.{set_defaults}
use postgres_cluster_operato.Controllers.Cluster.Reconcile.{
  reconcile, ensure_finalizer, reconcile_active,
}
use postgres_cluster_operato.Api.Meta.{NamespacedName}
use postgres_cluster_operato.Kube.Env.{Env, History, postgres_cluster, ok}
use postgres_cluster_operato.Kube.Action

-- The server answers for the cluster with one of its namespace, and an update of a cluster with one
-- of the same namespace.
pub record KeepsPlace (env : Env) (key : NamespacedName) : Type 0 where
  pub on_get :
      (h : History) (c : PostgresCluster)
      → env.on_get h postgres_cluster key ≡ ok c
      → c.metadata.namespace ≡ key.namespace
  pub on_update :
      (h : History) (c c' : PostgresCluster)
      → env.on_update h postgres_cluster c ≡ ok c'
      → c'.metadata.namespace ≡ c.metadata.namespace

module _ ⦃env : Env⦄ (key : NamespacedName) where
  abbrev IsHere : PostgresCluster → Type 0
  IsHere c = IsLive c × (c.metadata.namespace ≡ key.namespace)

  both :
      {P Q : PostgresCluster → Type 0} (m : Action.Action PostgresCluster)
      → Returns P m
      → Returns Q m
      → Returns (λ c. P c × Q c) m
  both m p q = record { at = λ h c e. (p.at h c e, q.at h c e) }

  get-IsHere :
      IsUnmarked env key → KeepsPlace env key → Returns IsHere (Action.get postgres_cluster key)
  get-IsHere u place = both _ (get-IsLive key u) (unfold Action.get in record { at = place.on_get })

  marked-place :
      (c : PostgresCluster)
      → MarksOnly env
      → c.metadata.namespace ≡ key.namespace
      → (env.add_finalizer c.metadata cluster_finalizer).namespace ≡ key.namespace
  marked-place c marks e = ap (λ k. k.namespace) (marks.kept c.metadata cluster_finalizer) ∙ e

  ensure_finalizer-place :
      (c : PostgresCluster)
      → MarksOnly env
      → KeepsPlace env key
      → c.metadata.namespace ≡ key.namespace
      → Returns (λ c'. c'.metadata.namespace ≡ key.namespace) (ensure_finalizer c)
  unfolding ensure_finalizer Action.update
  ensure_finalizer-place c marks place e =
      Returns-if (env.contains_finalizer c.metadata cluster_finalizer) _ _ (Returns-pure c e)
        (record { at = λ h c' q. place.on_update h _ c' q ∙ marked-place c marks e })

  ensure_finalizer-In :
      (c : PostgresCluster)
      → MarksOnly env
      → c.metadata.namespace ≡ key.namespace
      → Emits (InNamespace key.namespace) (ensure_finalizer c)
  unfolding ensure_finalizer
  ensure_finalizer-In c marks e =
      Emits-if _ _ _ (Emits-pure _)
        (Emits-update {P = InNamespace key.namespace} postgres_cluster _ (marked-place c marks e))

  active-In :
      (c : PostgresCluster)
      → KeepsNamespace env
      → c.metadata.namespace ≡ key.namespace
      → Emits (InNamespace key.namespace) (reconcile_active (set_defaults c))
  unfolding set_defaults
  active-In c keeps e =
      subst (λ ns. Emits (InNamespace ns) (reconcile_active (set_defaults c))) e
        (reconcile_active-InNamespace (set_defaults c) keeps)

  dispatch-In :
      (c : PostgresCluster)
      → KeepsNamespace env
      → IsHere c
      → Emits (InNamespace key.namespace) (
          if is_some c.metadata.deletion_timestamp
          then handle_deletion c
          else reconcile_active (set_defaults c))
  dispatch-In c keeps (live, e) = simp live (active-In c keeps e)

  -- Reconcile of a cluster, where the server's answers for it and to its updates keep its
  -- namespace and carry no deletion timestamp, and where AddFinalizer and SetControllerReference
  -- keep namespaces, creates and updates objects only in the cluster's own namespace, deletes
  -- nothing and makes no call to a database.
  pub reconcile-InNamespace :
      KeepsNamespace env
      → MarksOnly env
      → IsUnmarked env key
      → KeepsPlace env key
      → Emits (InNamespace key.namespace) (reconcile key)
  unfolding reconcile
  reconcile-InNamespace keeps marks u place =
      Emits-handle_when IsHere _ _ _ (get-IsHere u place)
        (Emits-get {P = InNamespace key.namespace} postgres_cluster key tt)
        (λ e. Emits-if _ _ _ (Emits-pure _) (Emits-raise _))
        λ found (live, e).
          Emits-bind_when IsHere _ _
            (both _ (ensure_finalizer-IsLive key found u live)
              (ensure_finalizer-place found marks place e))
            (ensure_finalizer-In found marks e) (λ c here. dispatch-In c keeps here)
