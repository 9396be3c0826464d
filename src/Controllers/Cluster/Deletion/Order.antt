-- ===== src/Controllers/Cluster/Deletion/Order.antt =====
-- The order of a cluster's deletion.
-- The stateful set and the service of each instance.
use postgres_cluster_operato.Api.Meta.{namespaced}
use mathlib.Core.Path.{subst⁻¹}
use postgres_cluster_operato.Kube.Action.{Requeue}
use postgres_cluster_operato.Kube.Clearing.{
  Target, Clears, after_delete, bind_assoc, done, last_call,
}
use postgres_cluster_operato.Common.{List, ◌∷◌, ◌≡◌, ◌++◌, inl, ◌<>◌, []}
use postgres_cluster_operato.Controllers.Cluster.Deletion.{
  delete_instances, handle_deletion, cluster_finalizer,
}
use postgres_cluster_operato.Kube.Env.{
  Env, History, postgres_cluster, Result, Call, stateful_set, config_map, a_cluster, service,
  secret,
}
use postgres_cluster_operato.Api.Cluster.{PostgresCluster, PostgresInstanceSpec}
use postgres_cluster_operato.Kube.Action

abbrev owned_by : PostgresCluster → List PostgresInstanceSpec → List Target
owned_by c [] = []
owned_by c (i ∷ is) =
    (stateful_set, namespaced c.metadata.namespace (c.metadata.name <> "-" <> i.name))
    ∷ (service, namespaced c.metadata.namespace (c.metadata.name <> "-" <> i.name))
    ∷ owned_by c is

-- The objects that a deletion takes away.
abbrev pub owned : PostgresCluster → List Target
owned c =
    owned_by c c.spec.instances
    ++ ((config_map, namespaced c.metadata.namespace (c.metadata.name <> "-config"))
        ∷ (secret, namespaced c.metadata.namespace (c.metadata.name <> "-credentials"))
        ∷ [])

module _ ⦃env : Env⦄ where
  -- The call that lets the cluster go is the one call that is left.
  abbrev pub Releases : PostgresCluster → History → Result Requeue × History → Type 0
  Releases c h out =
      out.1
      ≡ Call.update
          (a_cluster (record c { metadata = env.remove_finalizer c.metadata cluster_finalizer }))
        ∷ h

  after_instances :
      (R : History → Result Requeue × History → Type 0) (c : PostgresCluster)
      (is : List PostgresInstanceSpec) (ts : List Target) (n : Action.Action Requeue)
      → ((h : History) → Clears env R ts h (n h))
      → (h : History)
      → Clears env R (owned_by c is ++ ts) h (Action.◌>>=◌ (delete_instances c is) (λ _. n) h)
  unfolding delete_instances
  after_instances R c [] ts n k h = unfold Action.steps in k h
  after_instances R c (i ∷ is) ts n k h =
      subst⁻¹ (Clears env R (owned_by c (i ∷ is) ++ ts) h) (bind_assoc _ _ _ h) (
        after_delete R _ _ _
          (Action.◌>>=◌
            (Action.◌>>=◌ (Action.ignore_not_found (Action.delete service _))
              (λ _. delete_instances c is))
            (λ _. n))
          h
          (subst⁻¹ (Clears env R _ _) (bind_assoc _ _ _ _)
            (after_delete R _ _ _ _ _ (after_instances R c is ts n k _))))

  release_at :
      (o : PostgresCluster) (h : History)
      → (Action.◌>>=◌ (Action.update postgres_cluster o) (λ _. Action.pure Action.no_requeue) h).1
        ≡ Call.update (a_cluster o) ∷ h
  unfolding Action.update
  release_at o h = last_call _ _ h

  -- The deletion of a cluster deletes the stateful set and the service of each instance, the
  -- config map and the secret, one after the other, and updates the cluster without its finalizer
  -- only after each deletion was answered by success or NotFound; at the first other answer it
  -- stops with that deletion as its last call, and fails.
  pub handle_deletion-Clears :
      (c : PostgresCluster) (h : History)
      → Clears env (Releases c) (owned c) h (handle_deletion c h)
  unfolding handle_deletion
  handle_deletion-Clears c h =
      after_instances (Releases c) c c.spec.instances _ _
        (λ h.
          after_delete (Releases c) _ _ _ _ h
            (after_delete (Releases c) _ _ _ _ _ (inl (_, done _, release_at _ _))))
        h
