-- ===== src/Controllers/Cluster/Status/Summary.antt =====
-- The status of a cluster that is written, and its phase.
use postgres_cluster_operato.Controllers.Cluster.Status.Tallies.{
  IsTally, names_of, instance_names, check_instances-IsTally, sum_of, primary_of,
}
use postgres_cluster_operato.Kube.Emits.{
  Emits, emits_rules, Emits-bind_when, Emits-bind, Emits-update_status, Emits-pure,
}
use postgres_cluster_operato.Api.Cluster.{
  PostgresCluster, PostgresInstanceSpec, PostgresClusterStatus,
}
use postgres_cluster_operato.Kube.Env.{Env, Call, a_cluster, stateful_set, postgres_cluster}
use postgres_cluster_operato.Common.{
  List, ℤ, pos, ◌∷◌, [], arith, ◌≡◌, refl, ◌↔◌, ◌≢◌, ◌≤ℤ◌, Bool-cases, ◌==◌, inl, int_beq_iff,
  eq_iff, inr, ltb_ℤ, int_eq, string_eq,
}
use postgres_cluster_operato.Controllers.Cluster.Status.{
  check_instances, Tally, phase_of, final_status, update_cluster_status, expected_replicas,
}

-- What the statuses of a cluster are bound to say.
pub record IsSummary (c : PostgresCluster) (s : PostgresClusterStatus) : Type 0 where
  pub named : names_of s.instances ≡ instance_names c.spec.instances
  pub total : s.ready_replicas ≡ sum_of (pos 0) s.instances
  pub primary : s.current_primary ≡ primary_of c.status.current_primary s.instances
  pub running :
      (s.phase ≡ "Running") ↔ (s.ready_replicas ≡ expected_replicas (pos 0) c.spec.instances)
  pub pending : (s.phase ≡ "Pending") ↔ (
      (s.ready_replicas ≢ expected_replicas (pos 0) c.spec.instances) × (s.ready_replicas ≤ℤ pos 0))

phase_of_iff :
    (ready expected : ℤ)
    → ((phase_of ready expected ≡ "Running") ↔ (ready ≡ expected))
      × ((phase_of ready expected ≡ "Pending") ↔ ((ready ≢ expected) × (ready ≤ℤ pos 0)))
unfolding phase_of
phase_of_iff ready expected = elim (Bool-cases (ready == expected)) [
  | inl e ↦ simp e (ground (arith, e, int_beq_iff ready expected, eq_iff "Running" "Pending"))
  | inr e ↦ elim (Bool-cases (ltb_ℤ (pos 0) ready)) [
    | inl d ↦
        simp (e, d)
          (ground (
            arith,
            e,
            d,
            int_beq_iff ready expected,
            eq_iff "Degraded" "Running",
            eq_iff "Degraded" "Pending",
          ))
    | inr d ↦
        simp (e, d) (ground (arith, e, d, int_beq_iff ready expected, eq_iff "Pending" "Running"))
  ]
]

final_status-IsSummary :
    (c : PostgresCluster) (t : Tally)
    → IsTally c.status.current_primary (instance_names c.spec.instances) t
    → IsSummary c (final_status c t)
unfolding final_status
final_status-IsSummary c t k = record {
  named = k.named;
  total = k.total;
  primary = k.primary;
  running = (phase_of_iff t.total_ready (expected_replicas (pos 0) c.spec.instances)).0;
  pending = (phase_of_iff t.total_ready (expected_replicas (pos 0) c.spec.instances)).1;
}

-- The statuses of a cluster that are written are all such summaries; nothing else is written.
abbrev pub WritesSummary : PostgresCluster → Call → Type 0
WritesSummary c (Call.update_status (a_cluster o)) =
    (o.metadata ≡ c.metadata) × (o.spec ≡ c.spec) × IsSummary c o.status
WritesSummary c (Call.get k key) = k ≡ stateful_set
WritesSummary c _ = ⊥

module _ ⦃env : Env⦄ where
  check_instances-Emits :
      (c d : PostgresCluster) (is : List PostgresInstanceSpec) (t : Tally)
      → Emits (WritesSummary c) (check_instances d is t)
  unfolding check_instances
  check_instances-Emits c d [] t = search emits_rules
  check_instances-Emits c d (i ∷ is) t =
      search (emits_rules, refl, λ (t : Tally). check_instances-Emits c d is t)

  -- Every status that updateStatus of a cluster writes has one entry for each instance of the
  -- spec, in order, a total that is the int32 sum of their ready replicas, as its current primary
  -- the last leader among the entries, or the old primary where no entry has a leader, the phase
  -- Running exactly where the total is the expected number, and Pending exactly where it is not
  -- and the total is not positive; it reads only stateful sets and writes nothing else.
  pub update_cluster_status-IsSummary :
      (c : PostgresCluster) → Emits (WritesSummary c) (update_cluster_status c)
  unfolding update_cluster_status
  update_cluster_status-IsSummary c =
      Emits-bind_when (IsTally c.status.current_primary (instance_names c.spec.instances)) _ _
        (check_instances-IsTally c c.spec.instances c.status.current_primary [] _
          (record { named = refl; total = refl; in_range = ground arith; primary = refl }))
        (check_instances-Emits c c c.spec.instances _)
        λ t k.
          Emits-bind _ _
            (Emits-update_status {P = WritesSummary c} postgres_cluster _
              (refl, refl, final_status-IsSummary c t k))
            (λ _. Emits-pure _)
