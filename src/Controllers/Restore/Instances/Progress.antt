-- ===== src/Controllers/Restore/Instances/Progress.antt =====
-- What the loop over the instances of a restore does to their statuses.
-- The status of an instance keeps its name and its job, and once completed it stays as it is.
use postgres_cluster_operato.Api.Backup.{PostgresBackup}
use postgres_cluster_operato.Api.Cluster.{PostgresCluster, PostgresInstanceSpec}
use postgres_cluster_operato.Kube.Action
use postgres_cluster_operato.Kube.Returns.{
  Returns-if, Returns-pure, Returns-handle, Returns-weaken, Returns-bind, Returns-bind_when,
  Returns-if_when,
}
use mathlib.Core.Path.{subst⁻¹}
use postgres_cluster_operato.Kube.Emits.{Returns}
use postgres_cluster_operato.Kube.Objects.{JobStatus, Job}
use postgres_cluster_operato.Controllers.Backup.Status.{job_phase}
use postgres_cluster_operato.Controllers.Restore.Instances.{
  update_job_status, Attempt, put_status, start_job, restore_instance, restore_instances,
}
use postgres_cluster_operato.Common.{
  List, ◌≡◌, ◌∷◌, inl, ◌∙◌, ℕ, inr, refl, [], ◌⊎◌, get_elem?, ◌==◌, some, ap, false, set, string_eq,
  arith, suc, zero, Option, none,
}
use postgres_cluster_operato.Kube.Env.{Env, Error}
use postgres_cluster_operato.Api.Restore.{PostgresRestore, InstanceRestoreStatus}
use postgres_cluster_operato.Controllers.Restore.Status.{instance_after_job}

abbrev pub Moves : InstanceRestoreStatus → InstanceRestoreStatus → Type 0
Moves s t =
    ((s.name ≡ t.name) × (s.job_name ≡ t.job_name)) × ((s ≡ t) ⊎ ((s.phase == "Completed") ≡ false))

abbrev pub Advances : List InstanceRestoreStatus → List InstanceRestoreStatus → Type 0
Advances [] [] = Unit
Advances [] (t ∷ ts) = ⊥
Advances (s ∷ ss) [] = ⊥
Advances (s ∷ ss) (t ∷ ts) = Moves s t × Advances ss ts

Advances-refl : (ss : List InstanceRestoreStatus) → Advances ss ss
Advances-refl [] = tt
Advances-refl (s ∷ ss) = (((refl, refl), inl refl), Advances-refl ss)

Moves-trans : (s t u : InstanceRestoreStatus) → Moves s t → Moves t u → Moves s u
Moves-trans s t u ((n, j), inl e) ((n', j'), inl e') = ((n ∙ n', j ∙ j'), inl (e ∙ e'))
Moves-trans s t u ((n, j), inl e) ((n', j'), inr p) =
    ((n ∙ n', j ∙ j'), inr (ap (λ x. x.phase == "Completed") e ∙ p))
Moves-trans s t u ((n, j), inr p) (k, _) = ((n ∙ k.0, j ∙ k.1), inr p)

Advances-trans :
    (ss ts us : List InstanceRestoreStatus) → Advances ss ts → Advances ts us → Advances ss us
Advances-trans [] [] [] a b = tt
Advances-trans [] [] (u ∷ us) a b = elim b [ ]
Advances-trans [] (t ∷ ts) us a b = elim a [ ]
Advances-trans (s ∷ ss) [] us a b = elim a [ ]
Advances-trans (s ∷ ss) (t ∷ ts) [] a b = elim b [ ]
Advances-trans (s ∷ ss) (t ∷ ts) (u ∷ us) (m, a) (n, b) =
    (Moves-trans s t u m n, Advances-trans ss ts us a b)

Advances-set :
    (ss : List InstanceRestoreStatus) (i : ℕ) (s t : InstanceRestoreStatus)
    → get_elem? ss i ≡ some s
    → Moves s t
    → Advances ss (set ss i t)
Advances-set [] i s t e m = tt
Advances-set (x ∷ ss) zero s t e m = (subst⁻¹ (λ y. Moves y t) (ground arith) m, Advances-refl ss)
Advances-set (x ∷ ss) (suc i) s t e m = (((refl, refl), inl refl), Advances-set ss i s t e m)

-- What a part of the loop makes of the restore: only the statuses of the instances change.
pub record Progresses (before after : PostgresRestore) : Type 0 where
  pub same_metadata : after.metadata ≡ before.metadata
  pub same_spec : after.spec ≡ before.spec
  pub advances : Advances before.status.instance_statuses after.status.instance_statuses

stays : (r : PostgresRestore) → Progresses r r
stays r = record {
  same_metadata = refl;
  same_spec = refl;
  advances = Advances-refl r.status.instance_statuses;
}

Progresses-trans : (r s t : PostgresRestore) → Progresses r s → Progresses s t → Progresses r t
Progresses-trans r s t p q = record {
  same_metadata = q.same_metadata ∙ p.same_metadata;
  same_spec = q.same_spec ∙ p.same_spec;
  advances = Advances-trans _ _ _ p.advances q.advances;
}

put-Progresses :
    (r : PostgresRestore) (i : ℕ) (s t : InstanceRestoreStatus)
    → get_elem? r.status.instance_statuses i ≡ some s
    → Moves s t
    → Progresses r (put_status r i t)
put-Progresses r i s t e m = record {
  same_metadata = refl;
  same_spec = refl;
  advances = Advances-set r.status.instance_statuses i s t e m;
}

abbrev pub After : PostgresRestore → Attempt → Type 0
After r a = Progresses r a.restore

after_job-Moves :
    (j : JobStatus) (s : InstanceRestoreStatus)
    → (s.phase == "Completed") ≡ false
    → Moves s (instance_after_job j s)
unfolding instance_after_job job_phase
after_job-Moves j s n = (ground arith, inr n)

get-set :
    (ss : List InstanceRestoreStatus) (i : ℕ) (s t : InstanceRestoreStatus)
    → get_elem? ss i ≡ some s
    → get_elem? (set ss i t) i ≡ some t
get-set [] i s t e = ground arith
get-set (x ∷ ss) zero s t e = refl
get-set (x ∷ ss) (suc i) s t e = get-set ss i s t e

by_failure :
    (r : PostgresRestore) (a : Attempt) (o : Option Error) (m : Action.Action Attempt)
    → After r a
    → Returns (After a.restore) m
    → Returns (After r) (Action.option o m (λ _. Action.pure a))
unfolding Action.option
by_failure r a none m p q =
    Returns-weaken (After a.restore) m (λ b l. Progresses-trans r a.restore b.restore p l) q
by_failure r a (some e) m p q = Returns-pure a p

pub deref-Returns : {A : Type 0} (o : Option A) → Returns (λ a. o ≡ some a) (Action.deref o)
unfolding Action.deref
deref-Returns none = record { at = λ h a e. ground arith }
deref-Returns (some x) = record { at = λ h a e. ground arith }

module _ ⦃env : Env⦄ where
  job_status-After :
      (r : PostgresRestore) (i : ℕ) (s : InstanceRestoreStatus) (j : Job)
      → get_elem? r.status.instance_statuses i ≡ some s
      → (s.phase == "Completed") ≡ false
      → Returns (After r) (update_job_status r i s j)
  unfolding update_job_status
  job_status-After r i s j e n = Returns-if _ _ _ (Returns-pure _ (stays r)) (
      Returns-handle _ _ _
        (λ x. Returns-if _ _ _ (Returns-pure _ (stays r)) (Returns-pure _ (stays r)))
        (λ current. Returns-pure _ (put-Progresses r i s _ e (after_job-Moves current.status s n))))

  started_job-After :
      (r : PostgresRestore) (i : ℕ) (s t : InstanceRestoreStatus) (j : Job)
      → get_elem? r.status.instance_statuses i ≡ some s
      → Moves s t
      → (t.phase == "Completed") ≡ false
      → Returns (After r) (update_job_status (put_status r i t) i t j)
  started_job-After r i s t j e m n =
      Returns-weaken (After (put_status r i t)) _
        (λ a p. Progresses-trans r (put_status r i t) a.restore (put-Progresses r i s t e m) p)
        (job_status-After (put_status r i t) i t j (get-set r.status.instance_statuses i s t e) n)

  start_job-After :
      (r : PostgresRestore) (c : PostgresCluster) (b : PostgresBackup) (i : ℕ)
      (instance : PostgresInstanceSpec) (s : InstanceRestoreStatus)
      → get_elem? r.status.instance_statuses i ≡ some s
      → (s.phase == "Completed") ≡ false
      → Returns (After r) (start_job r c b i instance s)
  unfolding start_job
  start_job-After r c b i instance s e n =
      Returns-handle _ _ _ (λ x. Returns-pure _ (stays r))
        λ built.
          Returns-handle _ _ _ (λ x. Returns-pure _ (stays r))
            λ owned.
              Returns-handle _ _ _ (λ x. Returns-pure _ (stays r))
                λ _. Returns-bind _ _ λ at.
                  started_job-After r i s (record s { phase = "Running"; start_time = some at })
                    owned e ((refl, refl), inr n) refl

  pub restore_instance-After :
      (r : PostgresRestore) (c : PostgresCluster) (b : PostgresBackup) (i : ℕ)
      (instance : PostgresInstanceSpec)
      → Returns (After r) (restore_instance r c b i instance)
  unfolding restore_instance
  restore_instance-After r c b i instance =
      Returns-bind_when (λ s. get_elem? r.status.instance_statuses i ≡ some s) _ _
        (deref-Returns (get_elem? r.status.instance_statuses i))
        λ s e.
          Returns-if_when _ _ _ (λ _. Returns-pure _ (stays r))
            λ n.
              Returns-handle _ _ _
                (λ x.
                  Returns-if _ _ _ (start_job-After r c b i instance s e n)
                    (Returns-pure _ (stays r)))
                (λ found. job_status-After r i s found e n)

  -- The loop over the target instances of a restore, whenever it returns, leaves the metadata and
  -- the spec as they are, keeps the number, the names and the jobs of the instance statuses, and
  -- leaves the status of a completed instance as it was.
  pub restore_instances-Progresses :
      (r : PostgresRestore) (c : PostgresCluster) (b : PostgresBackup) (i : ℕ)
      (instances : List PostgresInstanceSpec)
      → Returns (λ a. Progresses r a.restore) (restore_instances r c b i instances)
  unfolding restore_instances
  restore_instances-Progresses r c b i [] = Returns-pure _ (stays r)
  restore_instances-Progresses r c b i (instance ∷ rest) =
      Returns-bind_when (After r) _ _ (restore_instance-After r c b i instance) λ a p.
        by_failure r a a.failure _ p (restore_instances-Progresses a.restore c b (suc i) rest)
