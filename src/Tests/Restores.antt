-- ===== src/Tests/Restores.antt =====
-- The theorems on restores, applied.
use postgres_cluster_operato.Controllers.Restore.Targets.Chosen.{
  Selected, Unmet, get_target_instances-Meets,
}
use postgres_cluster_operato.Api.Cluster.{PostgresInstanceSpec}
use postgres_cluster_operato.Kube.Resources.{key_of}
use postgres_cluster_operato.Kube.Guards.Fresh.{IsFresh}
use postgres_cluster_operato.Fixtures.Server.{server, server-Keeps}
use postgres_cluster_operato.Kube.Guards.{Guards}
use postgres_cluster_operato.Controllers.Restore.Instances.Fresh.{
  Echoes, reconcile_restore-IsFresh, IsLaidOut,
}
use postgres_cluster_operato.Kube.Keys.{KeepsKey, EchoesKey}
use postgres_cluster_operato.Controllers.Restore.Targets.{get_target_instances}
use postgres_cluster_operato.Kube.Action
use postgres_cluster_operato.Controllers.Restore.Reconcile.Reports.{
  Reported, reconcile_pending-Reported,
}
use postgres_cluster_operato.Controllers.Restore.Instances.Survival.{restore_instances-Calm}
use postgres_cluster_operato.Kube.Calm.{Calm}
use postgres_cluster_operato.Controllers.Restore.Reconcile.Deletion.{
  jobs_of, handle_restore_deletion-Clears,
}
use postgres_cluster_operato.Kube.Action.{⊤}
use mathlib.Core.Path.{subst}
use postgres_cluster_operato.Controllers.Restore.Status.Phases.{Some, restore_phase_iff}
use postgres_cluster_operato.Controllers.Restore.Reconcile.Own.{
  IsAsked, reconcile_restore_resource-RunsRestore,
}
use postgres_cluster_operato.Controllers.Restore.Instances.Own.{RunsRestore}
use postgres_cluster_operato.Kube.Env.{panicked}
use postgres_cluster_operato.Fixtures.World.{world-KeepsKey, world-MarksOnly}
use postgres_cluster_operato.Postgres.Restore.Feasible.{Restorable, Mountable}
use postgres_cluster_operato.Api.Meta.{namespaced, LabelSelector}
use postgres_cluster_operato.Controllers.Backup.Target.{set_backup_defaults}
use postgres_cluster_operato.Controllers.Backup.Status.{failed, completed}
use postgres_cluster_operato.Controllers.Restore.Reconcile.{
  reconcile_restore_resource, handle_restore_deletion, reconcile_pending,
}
use postgres_cluster_operato.Controllers.Restore.Instances.{restore_instances, reconcile_restore}
use postgres_cluster_operato.Controllers.Restore.Reconcile.Deletion.{Releases}
use postgres_cluster_operato.Common.{◌≡◌, ◌≢◌, ◌↔◌, ◌∷◌, [], refl, All, arith, List, some, none}
use postgres_cluster_operato.Controllers.Restore.Jobs.Feasible.{
  Made, full-unrestorable, create_restore_job-Outcome,
}
use postgres_cluster_operato.Fixtures.World.{world, world-IsCalm}
use postgres_cluster_operato.Api.Restore.{PostgresRestore}
use postgres_cluster_operato.Controllers.Restore.Instances.Progress.{
  Progresses, restore_instances-Progresses,
}
use postgres_cluster_operato.Fixtures.{back, demo, nightly, primary, replica, finished_job}
use postgres_cluster_operato.Controllers.Restore.Status.{restore_phase}
use postgres_cluster_operato.Controllers.Restore.Jobs.{create_restore_job}
use postgres_cluster_operato.Kube.Env.{History, postgres_restore, ok}
use postgres_cluster_operato.Kube.Clearing.{Clears}
use postgres_cluster_operato.Kube.Outcome.{Outcome}
use postgres_cluster_operato.Kube.Emits.{Emits, Returns}

back_IsAsked :
    (h : History) (r : PostgresRestore)
    → world.on_get h postgres_restore (namespaced "prod" "back") ≡ ok r
    → IsAsked ⦃env = world⦄ (namespaced "prod" "back") r
back_IsAsked h r e =
    subst (Outcome (IsAsked ⦃env = world⦄ (namespaced "prod" "back")) Action.⊤) e (refl, refl)

world-EchoesKey : EchoesKey world
world-EchoesKey = record {
  echoed = λ h r r' e. subst (Outcome (λ n. key_of n.metadata ≡ key_of r.metadata) Action.⊤) e refl;
}

reconcile_restore_resource-RunsRestore_example :
    Emits
      (RunsRestore (namespaced "prod" "back"))
      (reconcile_restore_resource ⦃env = world⦄ (namespaced "prod" "back"))
reconcile_restore_resource-RunsRestore_example =
    reconcile_restore_resource-RunsRestore ⦃env = world⦄ (namespaced "prod" "back") world-KeepsKey
      world-MarksOnly world-EchoesKey back_IsAsked

handle_restore_deletion-Clears_example :
    Clears world
      (Releases ⦃env = world⦄ back)
      (jobs_of back back.status.instance_statuses)
      []
      (handle_restore_deletion ⦃env = world⦄ back [])
handle_restore_deletion-Clears_example = handle_restore_deletion-Clears ⦃env = world⦄ back []

restore_instances-Progresses_example :
    Returns
      (λ a. Progresses back a.restore)
      (restore_instances ⦃env = world⦄ back demo nightly 0 (primary ∷ replica ∷ []))
restore_instances-Progresses_example =
    restore_instances-Progresses ⦃env = world⦄ back demo nightly 0 (primary ∷ replica ∷ [])

restore_phase_iff_example :
    ((restore_phase back.status.instance_statuses ≡ failed)
      ↔ Some "Failed" back.status.instance_statuses)
    × ((restore_phase back.status.instance_statuses ≡ completed)
        ↔ All (λ s. s.phase ≡ "Completed") back.status.instance_statuses)
restore_phase_iff_example = restore_phase_iff back.status.instance_statuses

-- A restore that goes to the replicas.
abbrev to_replicas : PostgresRestore
to_replicas = record back {
  spec = record (back.spec) {
    instances = some (record { names = []; role = "replica"; label_selector = none });
  };
}

world-selects : (l : LabelSelector) → world.selector_of l ≢ panicked
world-selects l e = ground arith

get_target_instances-Meets_example :
    Outcome
      (Selected world demo.spec.instances to_replicas.spec.instances)
      (Unmet world demo.spec.instances to_replicas.spec.instances)
      (get_target_instances ⦃env = world⦄ demo to_replicas)
get_target_instances-Meets_example =
    get_target_instances-Meets ⦃env = world⦄ demo to_replicas world-selects

create_restore_job-Outcome_example :
    Outcome
      (Made back nightly replica)
      (¬ (Restorable nightly × Mountable nightly))
      (create_restore_job back demo nightly replica)
create_restore_job-Outcome_example = create_restore_job-Outcome back demo nightly replica

full-unrestorable_example :
    create_restore_job back demo (set_backup_defaults nightly) replica ≢ ok finished_job
full-unrestorable_example = full-unrestorable back demo nightly replica finished_job refl

restore_instances-Calm_example :
    Calm (restore_instances ⦃env = world⦄ back demo nightly 0 (primary ∷ replica ∷ []))
restore_instances-Calm_example =
    restore_instances-Calm ⦃env = world⦄ back demo nightly 0 (primary ∷ replica ∷ []) world-IsCalm
      (omega arith)

reconcile_pending-Reported_example :
    Reported (reconcile_pending ⦃env = world⦄ back []).0 (reconcile_pending ⦃env = world⦄ back []).1
reconcile_pending-Reported_example = reconcile_pending-Reported ⦃env = world⦄ back []

server-KeepsKey : KeepsKey server
server-KeepsKey = record {
  kept = λ k owner m m' e. subst (Outcome (λ n. key_of n ≡ key_of m) Action.⊤) e refl;
}

server-Echoes : Echoes server
server-Echoes = record {
  status = λ h r r' e. subst (Outcome (λ n. n.status ≡ r.status) Action.⊤) e refl;
  name = λ h r r' e. subst (Outcome (λ n. n.metadata.name ≡ r.metadata.name) Action.⊤) e refl;
}

-- The statuses of the restore are those of its two instances.
back-IsLaidOut :
    (ts : List PostgresInstanceSpec)
    → get_target_instances ⦃env = server⦄ demo back ≡ ok ts
    → IsLaidOut back ts
unfolding get_target_instances
back-IsLaidOut ts e =
    subst (Outcome (λ (us : List PostgresInstanceSpec). IsLaidOut back us) Action.⊤) e
      (λ l. ((λ s q. ground arith), ((λ s q. ground arith), tt)))

reconcile_restore-IsFresh_example :
    Guards (IsFresh server) (reconcile_restore ⦃env = server⦄ back demo nightly)
reconcile_restore-IsFresh_example =
    reconcile_restore-IsFresh ⦃env = server⦄ back demo nightly server-Keeps server-KeepsKey
      server-Echoes back-IsLaidOut
