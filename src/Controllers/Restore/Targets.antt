-- ===== src/Controllers/Restore/Targets.antt =====
-- `setDefaults` and `getTargetInstances`.
pub mod Selection
pub mod Chosen
use postgres_cluster_operato.Common.{
  String, ◌<>◌, pos, Bool, true, false, Option, none, some, List, [], ◌∷◌, Dict, ◌==◌, string_eq,
  if◌then◌else◌, is_empty,
}
use postgres_cluster_operato.Api.Meta.{LabelSelector}
use postgres_cluster_operato.Api.Selectors.{InstanceSelector}
use postgres_cluster_operato.Api.Cluster.{PostgresCluster, PostgresInstanceSpec}
use postgres_cluster_operato.Api.Restore.{PostgresRestore}
use postgres_cluster_operato.Kube.Env.{Env, Error, Result, ok, err, panicked}
use postgres_cluster_operato.Kube.Action.{error, wrap_error}
use postgres_cluster_operato.Controllers.Cluster.Defaults.{or_default, or_number}
use postgres_cluster_operato.Controllers.Backup.Target.{find_instance}

unfoldable pub set_restore_defaults : PostgresRestore → PostgresRestore
set_restore_defaults restore = record restore {
  spec = record (restore.spec) {
    options = record (restore.spec.options) {
      timeout = or_default restore.spec.options.timeout "1h";
      parallel_restores = or_number restore.spec.options.parallel_restores (pos 1);
    };
  };
}

-- The loop over the names: each has to be there.
unfoldable pub instances_named :
    List PostgresInstanceSpec → List String → Result (List PostgresInstanceSpec)
unfolding find_instance
instances_named instances [] = ok []
instances_named instances (name ∷ rest) =
    let later = instances_named instances rest in
    elim (find_instance name instances) [
      | none ↦ err (error ("instance " <> name <> " not found in cluster"))
      | some instance ↦ elim later [
        | ok found ↦ ok (instance ∷ found)
        | err e ↦ err e
        | panicked ↦ panicked
      ]
    ]

abbrev pub instances_where :
    (PostgresInstanceSpec → Bool) → List PostgresInstanceSpec → List PostgresInstanceSpec
instances_where test [] = []
instances_where test (instance ∷ rest) =
    let later = instances_where test rest in if test instance then instance ∷ later else later

-- A role that no instance has is an error.
unfoldable pub instances_of_role :
    String → List PostgresInstanceSpec → Result (List PostgresInstanceSpec)
instances_of_role role instances = elim (instances_where (λ i. i.role == role) instances) [
  | [] ↦ err (error ("no instances with role " <> role <> " found"))
  | i ∷ rest ↦ ok (i ∷ rest)
]

-- The labels that stand in for those of an instance.
abbrev pub restore_labels : PostgresInstanceSpec → Dict String
restore_labels instance = ("instance", instance.name) ∷ ("role", instance.role) ∷ []

module _ ⦃env : Env⦄ where
  unfoldable pub instances_labelled :
      LabelSelector → List PostgresInstanceSpec → Result (List PostgresInstanceSpec)
  instances_labelled labels instances = elim (env.selector_of labels) [
    | ok selects ↦ ok (instances_where (λ i. selects (restore_labels i)) instances)
    | err e ↦ err (wrap_error "invalid label selector" e)
    | panicked ↦ panicked
  ]

  unfoldable pub by_selector :
      InstanceSelector → List PostgresInstanceSpec → Result (List PostgresInstanceSpec)
  unfolding instances_named instances_of_role instances_labelled
  by_selector selector instances =
      if is_empty selector.names
      then if selector.role == ""
        then elim selector.label_selector [
          | none ↦ ok instances
          | some labels ↦ instances_labelled labels instances
        ]
        else instances_of_role selector.role instances
      else instances_named instances selector.names

  unfoldable pub get_target_instances :
      PostgresCluster → PostgresRestore → Result (List PostgresInstanceSpec)
  unfolding by_selector
  get_target_instances cluster restore = elim restore.spec.instances [
    | none ↦ ok cluster.spec.instances
    | some selector ↦ by_selector selector cluster.spec.instances
  ]
