-- ===== src/Controllers/User/Instances/Coverage.antt =====
-- What the loop over the target instances has gathered.
use postgres_cluster_operato.Controllers.User.Instances.Returning.{configure_instances-Steady}
use postgres_cluster_operato.Kube.Steady.{OnlyOk, Finishes-Steady}
use postgres_cluster_operato.Controllers.User.Password.{get_password_from_secret}
use postgres_cluster_operato.Kube.Action
use mathlib.Core.Path.{subst}
use postgres_cluster_operato.Kube.Returns.{
  Returns-pure, Returns-handle, Returns-bind, Returns-finally, Returns-bind_when,
}
use postgres_cluster_operato.Api.Cluster.{PostgresCluster}
use postgres_cluster_operato.Kube.Emits.{Returns}
use postgres_cluster_operato.Postgres.Client.{Client}
use postgres_cluster_operato.Api.Meta.{Time}
use postgres_cluster_operato.Controllers.User.Instances.{
  configure_instances, reconcile_user_on_instances, configure_user, Progress, failed_on, configured,
  not_ready,
}
use postgres_cluster_operato.Api.User.{UserInstanceStatus, PostgresUser}
use postgres_cluster_operato.Common.{
  List, String, map, Bool, ◌++◌, ◌≡◌, ◌∷◌, Option, true, ◌&&◌, [], is_some, not, arith, ◌∙◌, ap,
  sym, refl, ◌<>◌, some, none,
}
use postgres_cluster_operato.Kube.Env.{Env, Error, Result, History, ok, err, panicked}
use mathlib.Core.List.{append_assoc, append-nil, map-append}

abbrev names_of : List UserInstanceStatus → List String
names_of = map (λ s. s.name)

abbrev all_ready : List UserInstanceStatus → Bool
all_ready [] = true
all_ready (s ∷ ss) = s.ready && all_ready ss

all_ready-append :
    (ss : List UserInstanceStatus) (s : UserInstanceStatus)
    → all_ready (ss ++ (s ∷ [])) ≡ (all_ready ss && s.ready)
all_ready-append [] s = ground arith
all_ready-append (x ∷ ss) s = ground (arith, all_ready-append ss s)

-- One status for each of the names, and an error exactly where one is not ready.
pub record IsProgress (names : List String) (p : Progress) : Type 0 where
  pub named : names_of p.statuses ≡ names
  pub failed : is_some p.failure ≡ not (all_ready p.statuses)

module _ (names : List String) (name : String) (p : Progress) where
  failed_on-IsProgress :
      (context : String) (e : Error)
      → IsProgress names p
      → IsProgress (names ++ (name ∷ [])) (failed_on name context e p)
  failed_on-IsProgress context e k = record {
    named = map-append (λ s. s.name) p.statuses _ ∙ ap (λ ns. ns ++ (name ∷ [])) k.named;
    failed =
        ground (arith, all_ready-append p.statuses (not_ready name (context <> ": " <> e.message)));
  }

  configured-IsProgress :
      (at : Time)
      → IsProgress names p
      → IsProgress
          (names ++ (name ∷ []))
          (record p { statuses = p.statuses ++ (configured name at ∷ []) })
  configured-IsProgress at k = record {
    named = map-append (λ s. s.name) p.statuses _ ∙ ap (λ ns. ns ++ (name ∷ [])) k.named;
    failed = ground (arith, k.failed, all_ready-append p.statuses (configured name at));
  }

module _ ⦃env : Env⦄ where
  configure_user-IsProgress :
      (u : PostgresUser) (password name : String) (c : Client) (names : List String) (p : Progress)
      → IsProgress names p
      → Returns (IsProgress (names ++ (name ∷ []))) (configure_user u password name c p)
  unfolding configure_user
  configure_user-IsProgress u password name c names p k =
      Returns-handle _ _ _ (λ e. Returns-pure _ (failed_on-IsProgress names name p _ e k))
        λ _.
          Returns-handle _ _ _ (λ e. Returns-pure _ (failed_on-IsProgress names name p _ e k))
            λ _. Returns-bind _ _ λ at. Returns-pure _ (configured-IsProgress names name p at k)

  configure_instances-IsProgress :
      (u : PostgresUser) (c : Option PostgresCluster) (password : String)
      (names targets : List String) (p : Progress)
      → IsProgress names p
      → Returns (IsProgress (names ++ targets)) (configure_instances u c password targets p)
  unfolding configure_instances
  configure_instances-IsProgress u c password names [] p k =
      Returns-pure p (subst (λ ns. IsProgress ns p) (sym (append-nil names)) k)
  configure_instances-IsProgress u c password names (name ∷ targets) p k =
      subst (λ ns. Returns (IsProgress ns) (configure_instances u c password (name ∷ targets) p))
        (append_assoc names (name ∷ []) targets)
        (Returns-handle _ _ _
          (λ e.
            configure_instances-IsProgress u c password (names ++ (name ∷ [])) targets _
              (failed_on-IsProgress names name p "Failed to connect to instance" e k))
          (λ client. Returns-finally _ _ (
            Returns-bind_when (IsProgress (names ++ (name ∷ []))) _ _
              (configure_user-IsProgress u password name client names p k)
              (λ q l.
                configure_instances-IsProgress u c password (names ++ (name ∷ [])) targets q l))))

  -- What the round over the instances gives, by what was read of the password.
  abbrev pub Gathered : List String → Result String × History → Result Progress → History → Type 0
  Gathered targets (ok password, h1) r h' = OnlyOk (λ p h'. IsProgress targets p) r h'
  Gathered targets (err e, h1) r h' =
      (r
        ≡ ok (record {
          statuses = [];
          failure = some (Action.wrap_error "failed to get password" e);
        }))
      × (h' ≡ h1)
  Gathered targets (panicked, h1) r h' = (r ≡ panicked) × (h' ≡ h1)

  Gathered-at :
      (u : PostgresUser) (c : Option PostgresCluster) (targets : List String) (r : Result String)
      (h1 : History)
      → let out =
          Action.handle
            (Action.lift r)
            (λ e. Action.pure (record {
              statuses = [];
              failure = some (Action.wrap_error "failed to get password" e);
            }))
            (λ password.
              configure_instances u c password targets (record { statuses = []; failure = none }))
            h1 in
        Gathered targets (r, h1) out.0 out.1
  unfolding Action.handle Action.lift Action.pure
  Gathered-at u c targets (ok password) h1 =
      (Finishes-Steady (IsProgress targets) _ h1 (configure_instances-Steady u c password targets _)
        (configure_instances-IsProgress u c password [] targets _
          (record { named = refl; failed = refl }))).at
  Gathered-at u c targets (err e) h1 = (refl, refl)
  Gathered-at u c targets panicked h1 = (refl, refl)

  -- Where getPasswordFromSecret returns a password, reconcileUserOnInstances does not end in an
  -- error, and where it returns it gives one status for each target instance, in order, with an
  -- error exactly where one of them is not ready; where getPasswordFromSecret fails, it makes no
  -- further call and gives no status, and as its error the one of the password, wrapped.
  pub reconcile_user_on_instances-IsProgress :
      (u : PostgresUser) (c : Option PostgresCluster) (targets : List String) (h : History)
      → Gathered targets
          (get_password_from_secret u h)
          (reconcile_user_on_instances u c targets h).0
          (reconcile_user_on_instances u c targets h).1
  unfolding reconcile_user_on_instances Action.handle Action.lift
  reconcile_user_on_instances-IsProgress u c targets h =
      Gathered-at u c targets (get_password_from_secret u h).0 (get_password_from_secret u h).1
