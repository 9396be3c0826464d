-- ===== src/Controllers/User/Reconcile/Reports.antt =====
-- What the status of a user says when `Reconcile` ends.
use postgres_cluster_operato.Controllers.User.Instances.Returning.{instances-Steady}
use mathlib.Core.Path.{subst}
use postgres_cluster_operato.Controllers.User.Reconcile.{
  reconcile_with_cluster, reconcile_targets, reconcile_access, fail_with,
}
use postgres_cluster_operato.Kube.Steady.{Finishes-after, Steady-deref}
use postgres_cluster_operato.Api.Cluster.{PostgresCluster}
use postgres_cluster_operato.Kube.Finishes.{
  LastCall, Finishes, Finishes-handle, Finishes-bind, Finishes-any, Finishes-raise, Finishes-pure,
}
use postgres_cluster_operato.Controllers.User.Status.{update_user_status, preserved}
use postgres_cluster_operato.Api.User.{PostgresUser, PostgresUserStatus, UserInstanceStatus}
use postgres_cluster_operato.Common.{
  String, ◌≡◌, ◌∷◌, Option, ◌⊎◌, [], List, refl, false, inl, inr, some, none,
}
use postgres_cluster_operato.Kube.Env.{
  Result, Env, err, Call, History, a_user, ok, postgres_user, panicked, Error,
}
use postgres_cluster_operato.Kube.Action
use postgres_cluster_operato.Controllers.User.Reconcile.{final_status}

-- The call updates the status of a user that satisfies `P`.
abbrev pub WritesStatus : (PostgresUser → Type 0) → Call → Type 0
WritesStatus P (Call.update_status (a_user u)) = P u
WritesStatus P _ = ⊥

abbrev pub LastReports : (PostgresUser → Type 0) → History → Type 0
LastReports P = LastCall (WritesStatus P)

abbrev pub Says : String → PostgresUser → Type 0
Says phase u = u.status.phase ≡ phase

abbrev pub IsErr {ℓ} : {A : Type ℓ} → Result A → Type 0
IsErr (err e) = Unit
IsErr _ = ⊥

module _ ⦃env : Env⦄ where
  -- The last call is an update of a user's status to Ready that the server refused.
  abbrev pub RefusedReady : History → Type 0
  RefusedReady [] = ⊥
  RefusedReady (c ∷ h) =
      WritesStatus (λ u. Says "Ready" u × IsErr (env.on_update_status h postgres_user u)) c

  -- A run that returns has written that the user is ready; one that fails has written a failure,
  -- or was refused to write that the user is ready.
  abbrev pub Reported : Result Action.Requeue → History → Type 0
  Reported (ok q) h = (q.after_minutes ≡ 30) × LastReports (Says "Ready") h
  Reported (err e) h = LastReports (Says "Failed") h ⊎ RefusedReady h
  Reported panicked h = Unit

  -- A status update is the last call.
  status-LastReports :
      (P : PostgresUser → Type 0) (u : PostgresUser) (s : PostgresUserStatus) (h : History)
      → P (record u { status = preserved u.status s })
      → Finishes (λ r h'. LastReports P h') h (update_user_status u s)
  unfolding update_user_status Action.update_status
  status-LastReports P u s h p = record { at = p }

  -- The same for the phase Ready, with the answer that it gets.
  abbrev ReadyAnswer : Result PostgresUser → History → Type 0
  ReadyAnswer (ok u) h = LastReports (Says "Ready") h
  ReadyAnswer (err e) h = RefusedReady h
  ReadyAnswer panicked h = Unit

  ready_at :
      (u : PostgresUser) (h : History) (r : Result PostgresUser)
      → r ≡ env.on_update_status h postgres_user u
      → Says "Ready" u
      → ReadyAnswer r (Call.update_status (a_user u) ∷ h)
  ready_at u h (ok x) e p = p
  ready_at u h (err x) e p = (p, subst IsErr e tt)
  ready_at u h panicked e p = tt

  status-ReadyAnswer :
      (u : PostgresUser) (s : PostgresUserStatus) (h : History)
      → s.phase ≡ "Ready"
      → Finishes ReadyAnswer h (update_user_status u s)
  unfolding update_user_status Action.update_status preserved
  status-ReadyAnswer u s h p = record { at = ready_at _ h _ refl p }

  fail_with-Reported :
      (u : PostgresUser) (message : String) (e : Error) (h : History)
      → Finishes Reported h (fail_with u message e)
  unfolding fail_with preserved
  fail_with-Reported u message e h =
      Finishes-bind (λ _ h'. LastReports (Says "Failed") h') _ _ h
        (status-LastReports (Says "Failed") u _ h refl) (λ _ h' p. Finishes-raise _ (inl p))
        (λ x h' p. inl p) (λ h' p. tt)

  -- The status at the end, by the failure that was gathered.
  final-Reported :
      (u : PostgresUser) (ss : List UserInstanceStatus) (o : Option Error) (h : History)
      → Finishes Reported h (
          Action.◌>>=◌
            (Action.within "failed to update status"
              (update_user_status u (final_status u (record { statuses = ss; failure = o }))))
            (λ _.
              Action.option o
                (Action.pure (record { requeue = false; after_minutes = 30 }))
                Action.raise))
  unfolding Action.option preserved
  final-Reported u ss none h =
      Finishes-bind ReadyAnswer _ _ h
        (Finishes-handle ReadyAnswer _ _ _ h (status-ReadyAnswer u _ h refl)
          (λ e h' p. Finishes-raise _ p) (λ x h' p. Finishes-pure _ p) (λ h' p. tt))
        (λ _ h' p. Finishes-pure _ (refl, p)) (λ e h' p. inr p) (λ h' p. tt)
  final-Reported u ss (some e) h =
      Finishes-bind (λ _ h'. LastReports (Says "Failed") h') _ _ h
        (Finishes-handle (λ _ h'. LastReports (Says "Failed") h') _ _ _ h
          (status-LastReports (Says "Failed") u _ h refl) (λ e h' p. Finishes-raise _ p)
          (λ x h' p. Finishes-pure _ p) (λ h' p. p))
        (λ _ h' p. Finishes-raise _ (inl p)) (λ x h' p. inl p) (λ h' p. tt)

  targets-Reported :
      (u : PostgresUser) (c : Option PostgresCluster) (names : List String) (h : History)
      → Finishes Reported h (reconcile_targets u c names)
  unfolding reconcile_targets
  targets-Reported u c names h =
      Finishes-after _ _ h (instances-Steady u c names)
        (λ p h'. final-Reported u p.statuses p.failure h') (λ h'. tt)

  access-Reported :
      (u : PostgresUser) (c : Option PostgresCluster) (h : History)
      → Finishes Reported h (reconcile_access u c)
  unfolding reconcile_access
  access-Reported u c h =
      Finishes-handle (λ x h'. Unit) _ _ _ h (Finishes-any _ h)
        (λ e h1 a.
          Finishes-after _ _ h1 (Steady-deref _) (λ ref h2. fail_with-Reported u _ e h2) (λ h2. tt))
        (λ names h1 a.
          Finishes-handle (λ x h'. Unit) _ _ _ h1 (Finishes-any _ h1)
            (λ e h2 b.
              Finishes-after _ _ h2 (Steady-deref _) (λ ref h3. fail_with-Reported u _ e h3)
                (λ h3. tt))
            (λ v h2 b. targets-Reported v c names h2) (λ h2 b. tt))
        (λ h1 a. tt)

  with_cluster-Reported :
      (u : PostgresUser) (c : Option PostgresCluster) (failure : Option Error) (h : History)
      → Finishes Reported h (reconcile_with_cluster u c failure)
  unfolding reconcile_with_cluster preserved
  with_cluster-Reported u c failure h =
      Finishes-after _ _ h (Steady-deref _)
        (λ ref h1.
          Finishes-bind (λ _ h'. LastReports (Says "Failed") h') _ _ h1
            (status-LastReports (Says "Failed") u _ h1 refl) (λ v h2 p. access-Reported v c h2)
            (λ e h2 p. inl p) (λ h2 p. tt))
        (λ h1. tt)

  -- Every run of Reconcile of a user, below getCluster, that does not panic has an update of a
  -- user's status as its last call: where it returns, it asks to be called again in thirty minutes
  -- and has written the phase Ready; where it fails, it has written the phase Failed, or the
  -- server refused the phase Ready.
  pub reconcile_with_cluster-Reported :
      (u : PostgresUser) (c : Option PostgresCluster) (failure : Option Error) (h : History)
      → Reported (reconcile_with_cluster u c failure h).0 (reconcile_with_cluster u c failure h).1
  reconcile_with_cluster-Reported u c failure h = (with_cluster-Reported u c failure h).at
