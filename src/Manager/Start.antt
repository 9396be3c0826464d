-- ===== src/Manager/Start.antt =====
-- What has been done where the manager is started, and how the process ends.
use mathlib.Core.Bool.{true≢false}
use mathlib.Core.Path.{subst⁻¹, subst}
use postgres_cluster_operato.Controllers.Setup.{
  restore_watch, backup_watch, user_watch, cluster_watch,
}
use postgres_cluster_operato.Kube.Env.{Result, ok, err, panicked}
use postgres_cluster_operato.Kube.Ensures.{IsSuccess}
use postgres_cluster_operato.Common.{List, [], ◌∷◌, All, ◌≡◌, refl, false, foldl, Bool, true}
use postgres_cluster_operato.Manager.{
  Host, process, Ending, Run, main, Request, add_database_types, add_readyz_check, start, or_exit,
  or_panic, add_healthz_check, add_client_go_types, exited, complete, get_config, returned,
  new_manager, crashed, manager_options, default_flags, Flags, tls_opts_of, TlsConfig,
  disable_http2,
}

-- Whatever a server is set up with, it then offers no protocol but HTTP/1.1.
abbrev OffersHttp1 : List (TlsConfig → TlsConfig) → Type 0
OffersHttp1 opts = (c : TlsConfig) → (foldl (λ c f. f c) c opts).next_protos ≡ "http/1.1" ∷ []

abbrev pub IsPlain : Flags → Type 0
IsPlain flags =
    flags.enable_http2 ≡ false
    → OffersHttp1 (manager_options flags).metrics_tls_opts
      × OffersHttp1 (manager_options flags).webhook_tls_opts

tls_opts-OffersHttp1 : (enabled : Bool) → enabled ≡ false → OffersHttp1 (tls_opts_of enabled)
unfolding tls_opts_of disable_http2
tls_opts-OffersHttp1 true e c = absurd (true≢false e)
tls_opts-OffersHttp1 false e c = refl

manager_options-IsPlain : (flags : Flags) → IsPlain flags
unfolding manager_options
manager_options-IsPlain flags e =
    (tls_opts-OffersHttp1 flags.enable_http2 e, tls_opts-OffersHttp1 flags.enable_http2 e)

module _ (host : Host) where
  -- A request that was answered by a success stands in the past.
  pub data Done (r : Request) : List Request → Type 0 where
    latest : {past : List Request} → IsSuccess (host.answer past r) → Done r (r ∷ past)
    earlier : {past : List Request} (s : Request) → Done r past → Done r (s ∷ past)

  abbrev pub AllDone : List Request → List Request → Type 0
  AllDone rs past = All (λ r. Done r past) rs

  -- What comes before the start, the newest first, by its stages.
  abbrev types : List Request
  types = add_database_types ∷ add_client_go_types ∷ []

  abbrev managed : List Request
  managed = new_manager (manager_options (host.parse_flags default_flags)) ∷ get_config ∷ types

  abbrev controlled : List Request
  controlled =
      complete restore_watch
      ∷ complete backup_watch
      ∷ complete user_watch
      ∷ complete cluster_watch
      ∷ managed

  abbrev pub setup : List Request
  setup = add_readyz_check "readyz" ∷ add_healthz_check "healthz" ∷ controlled

  -- Before a start all of the setup is done.
  abbrev pub IsOrdered : List Request → Type 0
  IsOrdered [] = Unit
  IsOrdered (start ∷ past) = AllDone setup past × IsOrdered past
  IsOrdered (_ ∷ past) = IsOrdered past

  -- The newest request was not answered by a success.
  abbrev pub IsRefused : List Request → Type 0
  IsRefused [] = ⊥
  IsRefused (r ∷ past) = ¬ (IsSuccess (host.answer past r))

  abbrev pub EndsBy : Ending → List Request → Type 0
  EndsBy returned past = AllDone (start ∷ setup) past
  EndsBy (exited code) past = (code ≡ 1) × IsRefused past
  EndsBy crashed past = IsRefused past

  abbrev pub IsSound : Run → Type 0
  IsSound out = EndsBy out.0 out.1 × IsOrdered out.1

  AllDone-later :
      (rs : List Request) (r : Request) (past : List Request)
      → AllDone rs past
      → AllDone rs (r ∷ past)
  AllDone-later [] r past d = tt
  AllDone-later (s ∷ rs) r past (d, ds) = (earlier r d, AllDone-later rs r past ds)

  -- One request, after those that are done.
  module _ (done_before : List Request) (r : Request) (rest : List Request → Run)
      (may_come : (past : List Request)
        → AllDone done_before past
        → IsOrdered past
        → IsOrdered (r ∷ past))
      (go_on : (past : List Request)
        → AllDone (r ∷ done_before) past
        → IsOrdered past
        → IsSound (rest past)) where
    exit_at :
        (past : List Request) (a : Result (Unit {0}))
        → host.answer past r ≡ a
        → AllDone done_before past
        → IsOrdered past
        → IsSound (elim a [
          | ok _ ↦ rest (r ∷ past)
          | err e ↦ (exited 1, r ∷ past)
          | panicked ↦ (crashed, r ∷ past)
        ])
    exit_at past (ok u) e d o =
        go_on (r ∷ past) (latest (subst⁻¹ IsSuccess e tt), AllDone-later done_before r past d)
          (may_come past d o)
    exit_at past (err x) e d o = ((refl, λ s. subst IsSuccess e s), may_come past d o)
    exit_at past panicked e d o = ((λ s. subst IsSuccess e s), may_come past d o)

    or_exit-IsSound :
        (past : List Request)
        → AllDone done_before past
        → IsOrdered past
        → IsSound (or_exit host r rest past)
    unfolding or_exit
    or_exit-IsSound past d o = exit_at past (host.answer past r) refl d o

    panic_at :
        (past : List Request) (a : Result (Unit {0}))
        → host.answer past r ≡ a
        → AllDone done_before past
        → IsOrdered past
        → IsSound (elim a [
          | ok _ ↦ rest (r ∷ past)
          | err e ↦ (crashed, r ∷ past)
          | panicked ↦ (crashed, r ∷ past)
        ])
    panic_at past (ok u) e d o =
        go_on (r ∷ past) (latest (subst⁻¹ IsSuccess e tt), AllDone-later done_before r past d)
          (may_come past d o)
    panic_at past (err x) e d o = ((λ s. subst IsSuccess e s), may_come past d o)
    panic_at past panicked e d o = ((λ s. subst IsSuccess e s), may_come past d o)

    or_panic-IsSound :
        (past : List Request)
        → AllDone done_before past
        → IsOrdered past
        → IsSound (or_panic host r rest past)
    unfolding or_panic
    or_panic-IsSound past d o = panic_at past (host.answer past r) refl d o

  start-IsSound :
      (past : List Request)
      → AllDone setup past
      → IsOrdered past
      → IsSound (or_exit host start (λ past. (returned, past)) past)
  start-IsSound =
      or_exit-IsSound setup start (λ past. (returned, past)) (λ p d o. (d, o)) (λ p d o. (d, o))

  checks-IsSound :
      (past : List Request)
      → AllDone controlled past
      → IsOrdered past
      → IsSound (
          or_exit host
            (add_healthz_check "healthz")
            (or_exit host
              (add_readyz_check "readyz")
              (or_exit host start (λ past. (returned, past))))
            past)
  checks-IsSound =
      or_exit-IsSound controlled (add_healthz_check "healthz") _ (λ p d o. o)
        (or_exit-IsSound (add_healthz_check "healthz" ∷ controlled) (add_readyz_check "readyz") _
          (λ p d o. o) start-IsSound)

  main-IsSound :
      (past : List Request) → AllDone types past → IsOrdered past → IsSound (main host past)
  unfolding main
  main-IsSound =
      or_exit-IsSound types get_config _ (λ p d o. o)
        (or_exit-IsSound (get_config ∷ types) (new_manager _) _ (λ p d o. o)
          (or_exit-IsSound managed (complete cluster_watch) _ (λ p d o. o)
            (or_exit-IsSound (complete cluster_watch ∷ managed) (complete user_watch) _ (λ p d o. o)
              (or_exit-IsSound (complete user_watch ∷ complete cluster_watch ∷ managed)
                (complete backup_watch) _ (λ p d o. o)
                (or_exit-IsSound
                  (complete backup_watch ∷ complete user_watch ∷ complete cluster_watch ∷ managed)
                  (complete restore_watch) _ (λ p d o. o) checks-IsSound)))))

  sound : IsSound (process host)
  unfolding process
  sound =
      or_panic-IsSound [] add_client_go_types _ (λ p d o. o)
        (or_panic-IsSound (add_client_go_types ∷ []) add_database_types _ (λ p d o. o) main-IsSound)
        [] tt tt

  -- The process starts the manager only after both groups of types, the configuration, the manager
  -- with the options of the flags, the four controllers with their watches and both checks were
  -- each answered by success; it returns only where the start was too, it ends with code 1 or a
  -- panic only at a request that was not, which is its last, and where HTTP/2 is not enabled the
  -- metrics and the webhook server offer only HTTP/1.1.
  pub process-IsSound : IsSound (process host) × IsPlain (host.parse_flags default_flags)
  process-IsSound = (sound, manager_options-IsPlain (host.parse_flags default_flags))
