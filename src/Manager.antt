-- ===== src/Manager.antt =====
-- main.go: the flags, the manager, and the registration of the controllers.
pub mod Start
use postgres_cluster_operato.Common.{
  String, ℕ, Bool, true, false, not, List, [], ◌∷◌, ◌++◌, if◌then◌else◌,
}
use postgres_cluster_operato.Kube.Env.{Result, ok, err, panicked}
use postgres_cluster_operato.Controllers.Setup.{
  Watch, cluster_watch, user_watch, backup_watch, restore_watch,
}

-- `tls.Config`, with the field that is set.
pub record TlsConfig : Type 0 where
  pub next_protos : List String

pub record Flags : Type 0 where
  pub metrics_addr : String
  pub probe_addr : String
  pub enable_leader_election : Bool
  pub secure_metrics : Bool
  pub enable_http2 : Bool

-- The values of the flags that the command line leaves out.
abbrev pub default_flags : Flags
default_flags = record {
  metrics_addr = ":8080";
  probe_addr = ":8081";
  enable_leader_election = false;
  secure_metrics = false;
  enable_http2 = false;
}

-- `ctrl.Options`, with the options of the metrics and the webhook server.
pub record ManagerOptions : Type 0 where
  pub metrics_bind_address : String
  pub metrics_secure_serving : Bool
  pub metrics_tls_opts : List (TlsConfig → TlsConfig)
  pub webhook_tls_opts : List (TlsConfig → TlsConfig)
  pub health_probe_bind_address : String
  pub leader_election : Bool
  pub leader_election_id : String

unfoldable pub disable_http2 : TlsConfig → TlsConfig
disable_http2 c = record c { next_protos = "http/1.1" ∷ [] }

unfoldable pub tls_opts_of : Bool → List (TlsConfig → TlsConfig)
tls_opts_of enable_http2 = if not enable_http2 then disable_http2 ∷ [] else []

unfoldable pub manager_options : Flags → ManagerOptions
unfolding tls_opts_of
manager_options flags = record {
  metrics_bind_address = flags.metrics_addr;
  metrics_secure_serving = flags.secure_metrics;
  metrics_tls_opts = tls_opts_of flags.enable_http2;
  webhook_tls_opts = tls_opts_of flags.enable_http2;
  health_probe_bind_address = flags.probe_addr;
  leader_election = flags.enable_leader_election;
  leader_election_id = "postgres-operator-leader-election";
}

-- What `init` and `main` ask of client-go and controller-runtime.
pub data Request : Type 0 where
  -- `AddToScheme`, of client-go and of api/v1
  add_client_go_types add_database_types : Request
  -- `ctrl.GetConfigOrDie`
  get_config : Request
  new_manager : ManagerOptions → Request
  -- `Complete` of the builder in `SetupWithManager`
  complete : Watch → Request
  add_healthz_check add_readyz_check : String → Request
  start : Request

-- How the process ends.
pub data Ending : Type 0 where
  returned : Ending
  exited : ℕ → Ending
  crashed : Ending

-- The requests of a run, the newest first, and how it ended.
abbrev pub Run : Type 0
Run = Ending × List Request

-- The answers, as a function of the requests made so far. `flag.Parse` may change every flag.
pub record Host : Type 0 where
  pub parse_flags : Flags → Flags
  pub answer : List Request → Request → Result (Unit {0})

module _ (host : Host) where
  -- `if err := request; err != nil { os.Exit(1) }`
  unfoldable pub or_exit : Request → (List Request → Run) → List Request → Run
  or_exit r rest past = elim (host.answer past r) [
    | ok _ ↦ rest (r ∷ past)
    | err e ↦ (exited 1, r ∷ past)
    | panicked ↦ (crashed, r ∷ past)
  ]

  -- `utilruntime.Must`
  unfoldable pub or_panic : Request → (List Request → Run) → List Request → Run
  or_panic r rest past = elim (host.answer past r) [
    | ok _ ↦ rest (r ∷ past)
    | err e ↦ (crashed, r ∷ past)
    | panicked ↦ (crashed, r ∷ past)
  ]

  unfoldable pub main : List Request → Run
  unfolding or_exit manager_options
  main =
      let flags = host.parse_flags default_flags in
      or_exit get_config (
        or_exit (new_manager (manager_options flags)) (
          or_exit (complete cluster_watch) (
            or_exit (complete user_watch) (
              or_exit (complete backup_watch) (
                or_exit (complete restore_watch) (
                  or_exit (add_healthz_check "healthz") (
                    or_exit (add_readyz_check "readyz")
                      (or_exit start (λ past. (returned, past))))))))))

  -- The package's `init`, and then `main`.
  unfoldable pub process : Run
  unfolding or_panic main
  process = or_panic add_client_go_types (or_panic add_database_types main) []
