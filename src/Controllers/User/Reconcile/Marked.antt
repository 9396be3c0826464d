-- ===== src/Controllers/User/Reconcile/Marked.antt =====
-- The status that `Reconcile` of a user writes first.
use postgres_cluster_operato.Api.Meta.{NamespacedName, namespaced}
use postgres_cluster_operato.Kube.Emits.{Emits}
use postgres_cluster_operato.Api.Selectors.{ClusterReference}
use postgres_cluster_operato.Controllers.User.Status.{preserved, brief_status}
use postgres_cluster_operato.Controllers.User.Reconcile.{show_error}
use postgres_cluster_operato.Common.{Option, some, none, if◌then◌else◌, ◌<>◌, ◌==◌, string_eq}
use postgres_cluster_operato.Kube.Env.{Result, Env, Error, err}
use postgres_cluster_operato.Api.User.{PostgresUser}
use postgres_cluster_operato.Kube.Action

-- What `getCluster` answered, as the rest of `Reconcile` is given it.
abbrev pub failure_of : {A : Type 0} → Result A → Option Error
failure_of (err e) = some e
failure_of _ = none

abbrev pub referenced_key : PostgresUser → ClusterReference → NamespacedName
referenced_key u ref =
    namespaced (if ref.namespace == "" then u.metadata.namespace else ref.namespace) ref.name

module _ ⦃env : Env⦄ where
  -- The status that is written first, with the phase Failed.
  abbrev pub marked : PostgresUser → ClusterReference → Option Error → PostgresUser
  marked u ref e = record u {
    status =
        preserved u.status
          (brief_status "Failed" ("Failed to get cluster " <> ref.name <> ": " <> show_error e));
  }
