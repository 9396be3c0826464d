-- ===== src/Controllers/Backup/Reconcile/Reports.antt =====
-- What the status of a backup says when `Reconcile` ends.
use postgres_cluster_operato.Kube.Resources.{create_or_update}
use postgres_cluster_operato.Kube.Clearing.{IsFailure}
use postgres_cluster_operato.Controllers.Backup.Reconcile.Ends.{
  Reported, ReadOff, LastFailed, cluster_key, Unread, read_off, unread, Trouble, no_job,
  not_answered, no_owner, not_accepted, no_target, not_stored,
}
use postgres_cluster_operato.Kube.Steady.{OnlyOk}
use postgres_cluster_operato.Controllers.Backup.Status.{backup_status}
use postgres_cluster_operato.Kube.Ensures.{IsSuccess}
use postgres_cluster_operato.Postgres.Backup.{create_backup_job}
use postgres_cluster_operato.Controllers.Backup.Target.{get_target_instance, set_backup_defaults}
use postgres_cluster_operato.Kube.Objects.{Job}
use mathlib.Core.Path.{subst⁻¹}
use postgres_cluster_operato.Kube.Finishes.{
  Finishes, Finishes-bind, Finishes-handle, Finishes-raise, Finishes-pure, within-Gives,
  get-Finishes, lift-Gives,
}
use postgres_cluster_operato.Api.Cluster.{PostgresCluster, PostgresInstanceSpec}
use postgres_cluster_operato.Api.Meta.{NamespacedName, namespaced}
use postgres_cluster_operato.Api.Backup.{PostgresBackup}
use postgres_cluster_operato.Kube.Env.{
  Result, Env, Call, ok, History, a_backup, err, Error, postgres_backup, postgres_cluster, job,
  panicked,
}
use postgres_cluster_operato.Common.{
  String, ◌≡◌, refl, Option, ◌∷◌, ◌<>◌, string_eq, inl, inr, some, false, none, arith,
}
use postgres_cluster_operato.Controllers.Backup.Reconcile.{
  failed_backup, report_failure, update_backup_status, reconcile_live, reconcile_backup, Attempt,
}
use postgres_cluster_operato.Kube.Action

defaults-metadata : (b : PostgresBackup) → (set_backup_defaults b).metadata ≡ b.metadata
unfolding set_backup_defaults
defaults-metadata b = refl

module _ ⦃env : Env⦄ where
  update_status-Finishes :
      (b : PostgresBackup) (h : History)
      → Finishes
          (λ r h'.
            (env.on_update_status h postgres_backup b ≡ r)
            × (h' ≡ Call.update_status (a_backup b) ∷ h))
          h
          (Action.update_status postgres_backup b)
  unfolding Action.update_status
  update_status-Finishes b h = record { at = (refl, refl) }

  last_failed :
      (b x : PostgresBackup) (message : String) (h h' : History)
      → x.metadata ≡ b.metadata
      → h' ≡ Call.update_status (a_backup (failed_backup x message)) ∷ h
      → LastFailed b message h'
  last_failed b x message h h' e q = subst⁻¹ (LastFailed b message) q (e, refl, refl)

  module _ (b : PostgresBackup) (h : History) where
    abbrev Ends : Result Action.Requeue → History → Type 0
    Ends = Reported env b h

    report_failure-Reported :
        (x : PostgresBackup) (e : Error) (h1 : History)
        → x.metadata ≡ b.metadata
        → Trouble env b h
        → Finishes Ends h1 (report_failure x e)
    unfolding report_failure
    report_failure-Reported x e h1 q t =
        Finishes-bind
          (OnlyOk (λ a h'. LastFailed b ("Failed to reconcile backup: " <> e.message) h')) _ _ h1
          (Finishes-handle (λ r h'. LastFailed b ("Failed to reconcile backup: " <> e.message) h') _
            _ _ h1 (record { at = last_failed b x _ h1 _ q ((update_status-Finishes _ h1).at.1) })
            (λ y h' p. Finishes-pure _ p) (λ y h' p. Finishes-pure _ p) (λ h' p. tt))
          (λ _ h' p. Finishes-raise _ (inl (p, t))) (λ y h' p. elim p [ ]) (λ h' p. tt)

    -- An attempt that did not fail ends with the status that is read off; one that failed has the
    -- backup as it was but for the spec and the status.
    abbrev Attempted : Result Attempt → History → Type 0
    Attempted (ok a) h' =
        (a.failure ≡ none → ReadOff env b h h')
        × ((e : Error) → a.failure ≡ some e → (a.backup.metadata ≡ b.metadata) × Trouble env b h)
    Attempted (err e) h' = Trouble env b h
    Attempted panicked h' = Unit

    module _ (c : PostgresCluster)
        (read : env.on_get h postgres_cluster (cluster_key b) ≡ ok c) where
      module _ (target : Option PostgresInstanceSpec) (built owned : Job)
          (targeted : get_target_instance (set_backup_defaults b) c ≡ ok target)
          (made : create_backup_job (set_backup_defaults b) c target ≡ ok built)
          (referenced : env.controller_reference postgres_backup b.metadata built.metadata
            ≡ ok owned.metadata) where
        abbrev changed : Job → PostgresBackup
        changed j = record (set_backup_defaults b) {
          status = backup_status (set_backup_defaults b) j c target;
        }

        abbrev own_key : NamespacedName
        own_key = namespaced owned.metadata.namespace owned.metadata.name

        -- The update of the status was accepted, or there is trouble.
        abbrev Written : Result PostgresBackup → History → Type 0
        Written r h' = (IsSuccess r → ReadOff env b h h') × (IsFailure r → Trouble env b h)

        accepted :
            (j : Job) (h1 : History)
            → env.on_get h1 job own_key ≡ ok j
            → Finishes Written
                (Call.get job own_key ∷ h1)
                (Action.update_status postgres_backup (changed j))
        unfolding Action.update_status set_backup_defaults
        accepted j h1 g = record {
          at = (
            (λ s. read_off c target built owned.metadata j read targeted made referenced g s),
            not_accepted (changed j) _ refl,
          );
        }

        written :
            (j : Job) (h1 h2 : History)
            → env.on_get h1 job own_key ≡ ok j
            → h2 ≡ Call.get job own_key ∷ h1
            → Finishes Attempted h2 (
                Action.handle
                  (Action.update_status postgres_backup (changed j))
                  (λ e. Action.pure (record { backup = changed j; failure = some e }))
                  (λ stored. Action.pure (record { backup = stored; failure = none })))
        unfolding set_backup_defaults
        written j h1 h2 g q =
            Finishes-handle Written _ _ _ h2
              (subst⁻¹
                (λ h2. Finishes Written h2 (Action.update_status postgres_backup (changed j))) q
                (accepted j h1 g))
              (λ e h' p. Finishes-pure _ ((λ f. ground arith), (λ x f. (refl, p.1 tt))))
              (λ stored h' p. Finishes-pure _ ((λ f. p.0 tt), (λ x f. ground arith))) (λ h' p. tt)

        status-Attempted :
            (h1 : History)
            → Finishes Attempted h1 (update_backup_status (set_backup_defaults b) owned c target)
        unfolding update_backup_status
        status-Attempted h1 =
            Finishes-bind _ _ _ h1 (get-Finishes job own_key h1)
              (λ j h2 (g, q). written j h1 h2 g q)
              (λ e h' (g, q). not_answered own_key h1 (subst⁻¹ IsFailure g tt)) (λ h' p. tt)

      abbrev Referenced : Job → Result Job → History → Type 0
      Referenced built (ok o) h' =
          env.controller_reference postgres_backup b.metadata built.metadata ≡ ok o.metadata
      Referenced built (err e) h' = Trouble env b h
      Referenced built panicked h' = Unit

      reference-Finishes :
          (built : Job) (h1 : History)
          → Finishes
              (Referenced built)
              h1
              (Action.set_controller_reference postgres_backup b.metadata job built)
      reference-Finishes built h1 =
          Finishes-bind _ _ _ h1
            (lift-Gives (env.controller_reference postgres_backup b.metadata built.metadata) h1)
            (λ m h' p. Finishes-pure _ p) (λ e h' p. no_owner built.metadata p) (λ h' p. tt)

      stored_lem :
          (o : Job) (h1 : History)
          → Finishes
              (λ r h'. IsFailure r → Trouble env b h)
              h1
              (Action.within "failed to create backup job" (create_or_update job o))
      stored_lem o h1 =
          Finishes-handle (λ r h'. IsFailure r → Trouble env b h) _ _ _ h1
            (record { at = not_stored o h1 }) (λ e h' p. Finishes-raise _ (λ f. p tt))
            (λ a h' p. Finishes-pure _ p) (λ h' p f. p tt)

      backup-Attempted :
          (h1 : History) → Finishes Attempted h1 (reconcile_backup (set_backup_defaults b) c)
      unfolding reconcile_backup set_backup_defaults
      backup-Attempted h1 =
          Finishes-bind _ _ _ h1 (within-Gives _ _ h1)
            (λ target h2 t.
              Finishes-bind _ _ _ h2 (within-Gives _ _ h2)
                (λ built h3 m.
                  Finishes-bind _ _ _ h3 (reference-Finishes built h3)
                    (λ owned h4 r.
                      Finishes-bind _ _ _ h4 (stored_lem owned h4)
                        (λ _ h5 u. status-Attempted target built owned t m r h5) (λ e h' p. p tt)
                        (λ h' p. tt))
                    (λ e h' p. p) (λ h' p. tt))
                (λ e h' p. no_job c target read t p) (λ h' p. tt))
            (λ e h' p. no_target c read p) (λ h' p. tt)

    attempt-Reported :
        (a : Attempt) (o : Option Error) (h1 : History)
        → a.failure ≡ o
        → Attempted (ok a) h1
        → Finishes Ends h1 (
            Action.option o
              (Action.pure (record { requeue = false; after_minutes = 5 }))
              (report_failure a.backup))
    unfolding Action.option
    attempt-Reported a none h1 e (p, q) = Finishes-pure _ (inl (refl, p e))
    attempt-Reported a (some x) h1 e (p, q) =
        report_failure-Reported a.backup x h1 ((q x e).0) ((q x e).1)

    unread-Reported :
        (e : Error) (h1 : History)
        → env.on_get h postgres_cluster (cluster_key b) ≡ err e
        → h1 ≡ Call.get postgres_cluster (cluster_key b) ∷ h
        → Finishes Ends h1 (
            Action.◌>>◌
              (Action.update_status postgres_backup (
                failed_backup b
                  ("Failed to get cluster " <> b.spec.cluster_ref.name <> ": " <> e.message)))
              (Action.pure Action.no_requeue))
    unread-Reported e h1 g q =
        Finishes-bind (λ x h'. Unread env b h h') _ _ h1
          (record {
            at = subst⁻¹ (Unread env b h) ((update_status-Finishes _ h1).at.1) (
                subst⁻¹
                  (λ k. Unread env b h (
                    Call.update_status (
                      a_backup (
                        failed_backup b (
                          "Failed to get cluster " <> b.spec.cluster_ref.name <> ": "
                          <> e.message)))
                    ∷ k))
                  q (unread e g));
          })
          (λ x h' p. Finishes-pure _ (inr (refl, p))) (λ x h' p. inr p) (λ h' p. tt)

    live-Finishes : Finishes Ends h (reconcile_live b)
    unfolding reconcile_live
    live-Finishes =
        Finishes-handle _ _ _ _ h (get-Finishes postgres_cluster (cluster_key b) h)
          (λ e h1 (g, q). unread-Reported e h1 g q)
          (λ c h1 (g, q).
            Finishes-handle Attempted _ _ _ h1 (backup-Attempted c g h1)
              (λ e h2 p.
                report_failure-Reported (set_backup_defaults b) e h2 (defaults-metadata b) p)
              (λ a h2 p. attempt-Reported a a.failure h2 refl p) (λ h2 p. tt))
          (λ h1 p. tt)

  -- Every run of Reconcile of a backup, past the tests for the finalizer and the deletion, that
  -- does not panic has an update of this backup's status as its last call. Where it asks to be
  -- called again in five minutes, the lookup of the backup's job comes right before it, for the
  -- cluster that the server answered, and the status, which was accepted, is the one of the job
  -- that was answered. Where it returns otherwise, the lookup of the cluster failed, and that
  -- lookup and the phase Failed with its error are the only calls. Where it fails, either those
  -- are again the only calls, or the phase is Failed with the error in the message and there is
  -- trouble: for a cluster that the server answered there is no target instance or no job for it,
  -- or this backup cannot be made the owner of an object, or a job is not created or updated, or a
  -- job is looked up in vain, or an update of the status of this backup is refused.
  pub reconcile_live-Reported :
      (b : PostgresBackup) (h : History)
      → Reported env b h (reconcile_live b h).0 (reconcile_live b h).1
  reconcile_live-Reported b h = (live-Finishes b h).at
