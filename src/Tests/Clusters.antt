-- ===== src/Tests/Clusters.antt =====
-- The theorems on clusters, applied.
use postgres_cluster_operato.Controllers.Cluster.Reconcile.Wanted.{desired}
use postgres_cluster_operato.Controllers.Cluster.Reconcile.Confined.{
  reconcile-InNamespace, KeepsPlace,
}
use postgres_cluster_operato.Controllers.Cluster.Config.Sections.{
  text_of, ha_lines, sections, generate_postgres_config-sections,
}
use postgres_cluster_operato.Kube.Action
use postgres_cluster_operato.Controllers.Cluster.Services.{
  reconcile_instance_service, reconcile_monitoring,
}
use postgres_cluster_operato.Controllers.Cluster.Sets.{
  reconcile_instance, reconcile_instance_stateful_set,
}
use postgres_cluster_operato.Utils.Crypto.{generate_password, characters}
use postgres_cluster_operato.Controllers.Cluster.Credentials.{reconcile_secret, user_passwords}
use postgres_cluster_operato.Controllers.Cluster.Reconcile.Again.{
  reconcile_active_again-CreatesNothing,
}
use postgres_cluster_operato.Controllers.Cluster.Reconcile.Desired.{reconcile_cluster-Ensures}
use postgres_cluster_operato.Kube.Resources.{create_or_update}
use postgres_cluster_operato.Fixtures.Server.{server, server-Keeps}
use postgres_cluster_operato.Kube.Ensures.Again.{CreatesNothing}
use postgres_cluster_operato.Kube.Env.{postgres_cluster}
use postgres_cluster_operato.Controllers.Cluster.Config.{
  reconcile_config_map, generate_postgres_config,
}
use postgres_cluster_operato.Kube.Ensures.{Ensures, IsSuccess}
use postgres_cluster_operato.Kube.Namespaces.{InNamespace, KeepsNamespace}
use postgres_cluster_operato.Controllers.Cluster.Status.Summary.{
  WritesSummary, update_cluster_status-IsSummary,
}
use postgres_cluster_operato.Kube.Action.{⊤}
use postgres_cluster_operato.Controllers.Cluster.Deletion.{handle_deletion}
use postgres_cluster_operato.Controllers.Cluster.Status.Expected.{expected_replicas-sum}
use postgres_cluster_operato.Kube.Outcome.{Outcome}
use postgres_cluster_operato.Controllers.Cluster.Reconcile.{
  reconcile, reconcile_active, reconcile_cluster, reconcile_instances,
}
use mathlib.Core.Path.{subst}
use postgres_cluster_operato.Controllers.Cluster.Deletion.Order.{
  Releases, owned, handle_deletion-Clears,
}
use postgres_cluster_operato.Fixtures.{demo, primary, replica}
use postgres_cluster_operato.Fixtures.World.{world, world-MarksOnly}
use postgres_cluster_operato.Common.{pos, ◌≡◌, ◌∷◌, none, [], string_eq, arith, refl, ◌++◌}
use postgres_cluster_operato.Controllers.Cluster.Status.{
  expected_replicas, update_cluster_status, check_instances,
}
use postgres_cluster_operato.Api.Meta.{namespaced}
use postgres_cluster_operato.Kube.Emits.{Emits, Extends, same}
use postgres_cluster_operato.Controllers.Cluster.Reconcile.NoDeletes.{IsUnmarked}
use postgres_cluster_operato.Kube.Clearing.{Clears}

-- The answer is the cluster of the fixtures, which is not marked for deletion.
demo-IsUnmarked : IsUnmarked world (namespaced "prod" "db")
demo-IsUnmarked = record {
  on_get = λ h c e. subst (Outcome (λ d. d.metadata.deletion_timestamp ≡ none) ⊤) e refl;
  on_update = λ h c c' e. subst (Outcome (λ d. d.metadata.deletion_timestamp ≡ none) ⊤) e refl;
}

handle_deletion-Clears_example :
    Clears world
      (Releases ⦃env = world⦄ demo)
      (owned demo)
      []
      (handle_deletion ⦃env = world⦄ demo [])
handle_deletion-Clears_example = handle_deletion-Clears ⦃env = world⦄ demo []

update_cluster_status-IsSummary_example :
    Emits (WritesSummary demo) (update_cluster_status ⦃env = world⦄ demo)
update_cluster_status-IsSummary_example = update_cluster_status-IsSummary ⦃env = world⦄ demo

expected_replicas-sum_example : expected_replicas (pos 0) (primary ∷ replica ∷ []) ≡ pos 3
expected_replicas-sum_example =
    expected_replicas-sum (primary ∷ replica ∷ []) 0 (refl, (refl, tt)) (omega arith)

world-KeepsNamespace : KeepsNamespace world
world-KeepsNamespace = record {
  kept = λ k owner m m' e. subst (Outcome (λ n. n.namespace ≡ m.namespace) ⊤) e refl;
}

demo-KeepsPlace : KeepsPlace world (namespaced "prod" "db")
demo-KeepsPlace = record {
  on_get = λ h c e. subst (Outcome (λ d. d.metadata.namespace ≡ "prod") ⊤) e refl;
  on_update =
      λ h c c' e. subst (Outcome (λ d. d.metadata.namespace ≡ c.metadata.namespace) ⊤) e refl;
}

reconcile-InNamespace_example :
    Emits (InNamespace "prod") (reconcile ⦃env = world⦄ (namespaced "prod" "db"))
reconcile-InNamespace_example =
    reconcile-InNamespace ⦃env = world⦄ (namespaced "prod" "db") world-KeepsNamespace
      world-MarksOnly demo-IsUnmarked demo-KeepsPlace

reconcile_cluster-Ensures_example :
    Ensures world postgres_cluster demo.metadata
      (desired world demo)
      (reconcile_cluster ⦃env = world⦄ demo)
reconcile_cluster-Ensures_example = reconcile_cluster-Ensures ⦃env = world⦄ demo

-- The first reconciliation on the empty server succeeds.
first_succeeds : IsSuccess (reconcile_active ⦃env = server⦄ demo []).0
unfolding reconcile_active reconcile_cluster reconcile_config_map create_or_update reconcile_secret
    generate_password characters user_passwords reconcile_instances reconcile_instance
    reconcile_instance_service reconcile_instance_stateful_set reconcile_monitoring
    update_cluster_status check_instances Action.steps
first_succeeds = tt

reconcile_active_again-CreatesNothing_example :
    Extends CreatesNothing
      (reconcile_active ⦃env = server⦄ demo []).1
      (reconcile_active ⦃env = server⦄ demo (reconcile_active ⦃env = server⦄ demo []).1).1
reconcile_active_again-CreatesNothing_example =
    reconcile_active_again-CreatesNothing ⦃env = server⦄ demo [] _ server-Keeps first_succeeds same

generate_postgres_config-sections_example :
    generate_postgres_config demo
    ≡ text_of (ha_lines demo.spec.high_availability ++ sections demo.spec.instances)
generate_postgres_config-sections_example = generate_postgres_config-sections demo
