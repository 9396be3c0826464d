-- ===== src/Tests/Users.antt =====
-- The theorems on users and passwords, applied.
-- The source of the world answers with 7 or 0, and below the bound.
use postgres_cluster_operato.Controllers.User.Instances.Limits.{
  LeavesLimits, configure_user-LeavesLimits,
}
use postgres_cluster_operato.Controllers.User.Password.Stored.{rotate_password-read}
use postgres_cluster_operato.Fixtures.Vault.{vault, vault-KeepsKey, vault-KeepsSecrets}
use postgres_cluster_operato.Kube.Action
use postgres_cluster_operato.Postgres.Client.Provisions.{Provisions}
use postgres_cluster_operato.Controllers.User.Reconcile.Release.{
  handle_user_deletion-Makes, Unfinalizes,
}
use postgres_cluster_operato.Kube.Makes.{Makes}
use postgres_cluster_operato.Postgres.Client.Statements.{ByAnswer, create_or_update_user-ByAnswer}
use postgres_cluster_operato.Controllers.User.Targets.{get_target_instances}
use postgres_cluster_operato.Controllers.User.Targets.Selection.{
  Targets, get_target_instances-Targets,
}
use postgres_cluster_operato.Controllers.User.Instances.Survival.{reconcile_user_on_instances-Calm}
use postgres_cluster_operato.Kube.Calm.{Calm}
use postgres_cluster_operato.Kube.Resources.{create_or_update}
use postgres_cluster_operato.Controllers.User.Password.Rotation.{is_due_iff}
use postgres_cluster_operato.Postgres.Client.{
  system_users, user_exists_query, create_or_update_user, set_connection_limit, drop_user,
}
use postgres_cluster_operato.Controllers.User.Reconcile.Reports.{
  Reported, reconcile_with_cluster-Reported,
}
use postgres_cluster_operato.Controllers.User.Instances.{
  reconcile_user_on_instances, configure_user,
}
use mathlib.Core.Path.{subst}
use postgres_cluster_operato.Kube.Action.{no_requeue, ⊤}
use postgres_cluster_operato.Controllers.User.Reconcile.Failures.{reconcile_with_cluster-none}
use postgres_cluster_operato.Kube.Resources.{key_of}
use postgres_cluster_operato.Controllers.User.Reconcile.Provisions.{reconcile_user-Provisions}
use postgres_cluster_operato.Api.Meta.{namespaced, NamespacedName}
use postgres_cluster_operato.Utils.Crypto.{size, charset, generate_password, characters}
use postgres_cluster_operato.Fixtures.{reader, demo, settings_map}
use postgres_cluster_operato.Fixtures.World.{world, world-IsCalm}
use postgres_cluster_operato.Common.{
  true, ◌≤◌, [], pos, none, ◌==◌, arith, ◌∷◌, ◌≡◌, ◌≢◌, ◌⊎◌, false, ◌↔◌, ◌≤ℤ◌, some, contains, ◌+◌,
  negsuc, ◌*◌, refl, string_eq, String,
}
use postgres_cluster_operato.Api.User.{PostgresUser, PasswordSpec}
use postgres_cluster_operato.Postgres.Client.Guards.{Only, statements-guard}
use postgres_cluster_operato.Controllers.User.Instances.Coverage.{
  reconcile_user_on_instances-IsProgress, Gathered,
}
use postgres_cluster_operato.Utils.Crypto.Outcome.{
  IsRandom, AllIn, RandomFailed, generate_password-Outcome,
}
use postgres_cluster_operato.Controllers.User.Password.{
  is_due, password_secret, rotate_password, password_length, get_password_from_secret,
}
use postgres_cluster_operato.Kube.Resources.Stored.{
  SecretWritten, ConfigWritten, create_or_update-Written,
}
use postgres_cluster_operato.Kube.Env.{
  History, Call, postgres_user, secret, ok, config_map, Kind, Env, Result, Obj,
}
use postgres_cluster_operato.Kube.Outcome.{Outcome}
use postgres_cluster_operato.Controllers.User.Reconcile.{
  reconcile_with_cluster, reconcile_user, handle_user_deletion, user_finalizer,
}
use postgres_cluster_operato.Kube.Emits.{Emits, Returns, more, same}

world-IsRandom : IsRandom world
world-IsRandom = record { below = λ h bound v e. ground arith; returns = λ h bound e. ground arith }

generate_password-Outcome_example :
    Outcome
      (λ s.
        ((8 ≤ size s) × ((pos 20 ≡ pos (size s)) ⊎ ((size s ≡ 8) × (pos 20 ≤ℤ pos 7))))
        × AllIn s charset)
      (RandomFailed ⦃env = world⦄)
      (generate_password ⦃env = world⦄ (pos 20) []).0
generate_password-Outcome_example =
    generate_password-Outcome ⦃env = world⦄ (pos 20) [] world-IsRandom

reader_unmarked :
    (h : History) (u : PostgresUser)
    → world.on_get h postgres_user (namespaced "prod" "reader") ≡ ok u
    → u.metadata.deletion_timestamp ≡ none
reader_unmarked h u e = subst (Outcome (λ d. d.metadata.deletion_timestamp ≡ none) ⊤) e refl

reconcile_user-Provisions_example :
    Emits (Provisions world) (reconcile_user ⦃env = world⦄ (namespaced "prod" "reader"))
reconcile_user-Provisions_example =
    reconcile_user-Provisions ⦃env = world⦄ (namespaced "prod" "reader") reader_unmarked

reconcile_user_on_instances-IsProgress_example :
    Gathered ⦃env = world⦄
      ("a" ∷ "b" ∷ [])
      (get_password_from_secret ⦃env = world⦄ reader [])
      (reconcile_user_on_instances ⦃env = world⦄ reader (some demo) ("a" ∷ "b" ∷ []) []).0
      (reconcile_user_on_instances ⦃env = world⦄ reader (some demo) ("a" ∷ "b" ∷ []) []).1
reconcile_user_on_instances-IsProgress_example =
    reconcile_user_on_instances-IsProgress ⦃env = world⦄ reader (some demo) ("a" ∷ "b" ∷ []) []

reconcile_with_cluster-none_example :
    (reconcile_with_cluster ⦃env = world⦄ reader none none []).0 ≢ ok no_requeue
reconcile_with_cluster-none_example =
    reconcile_with_cluster-none ⦃env = world⦄ reader none [] no_requeue

-- A user with its finalizer, and a world that has it.
abbrev held_reader : PostgresUser
held_reader = record reader {
  metadata = record (reader.metadata) { finalizers = user_finalizer ∷ [] };
}

abbrev held_answer : (k : Kind) → NamespacedName → Result (Obj k)
held_answer postgres_user key = ok held_reader
held_answer k key = world.on_get [] k key

abbrev held_world : Env
held_world = record world { on_get = λ h k key. held_answer k key }

is_due_iff_example :
    (is_due 7300000000000 0 (record { enabled = true; interval = pos 2 }) ≡ true)
    ↔ (0 + 2 * 3600000000000 ≤ 7300000000000)
is_due_iff_example =
    is_due_iff 7300000000000 0 (record { enabled = true; interval = pos 2 }) 2 refl (omega arith)

reconcile_with_cluster-Reported_example :
    Reported ⦃env = world⦄
      (reconcile_with_cluster ⦃env = world⦄ reader (some demo) none []).0
      (reconcile_with_cluster ⦃env = world⦄ reader (some demo) none []).1
reconcile_with_cluster-Reported_example =
    reconcile_with_cluster-Reported ⦃env = world⦄ reader (some demo) none []

statements-guard_example :
    Emits
      (Only
        (((reader.spec.username == "") ≡ false)
          × (contains reader.spec.username system_users ≡ false))
        "conn")
      (drop_user ⦃env = world⦄ (record { db = "conn" }) "reader")
    × Emits
        (Only (((reader.spec.username == "") ≡ false) × (negsuc 0 ≤ℤ pos 5)) "conn")
        (set_connection_limit ⦃env = world⦄ (record { db = "conn" }) "reader" (pos 5))
statements-guard_example = statements-guard ⦃env = world⦄ (record { db = "conn" }) "reader" (pos 5)

create_or_update-Written_example :
    SecretWritten
      (password_secret reader "pw")
      []
      (world.on_get [] secret (key_of (password_secret reader "pw").metadata))
      (create_or_update ⦃env = world⦄ secret (password_secret reader "pw") []).1
    × ConfigWritten settings_map []
        (world.on_get [] config_map (key_of settings_map.metadata))
        (create_or_update ⦃env = world⦄ config_map settings_map []).1
create_or_update-Written_example =
    create_or_update-Written ⦃env = world⦄ (password_secret reader "pw") settings_map []

reconcile_user_on_instances-Calm_example :
    Calm (reconcile_user_on_instances ⦃env = world⦄ reader (some demo) ("a" ∷ "b" ∷ []))
reconcile_user_on_instances-Calm_example =
    reconcile_user_on_instances-Calm ⦃env = world⦄ reader demo ("a" ∷ "b" ∷ [])
      (record { secret_ref = none; generate = true; length = pos 20; rotation_policy = none })
      world-IsCalm refl

get_target_instances-Targets_example :
    Returns
      (Targets ⦃env = world⦄ reader.spec.instance_selector demo)
      (get_target_instances ⦃env = world⦄ reader (some demo))
get_target_instances-Targets_example = get_target_instances-Targets ⦃env = world⦄ reader demo

create_or_update_user-ByAnswer_example :
    ByAnswer ⦃env = world⦄
      (record { db = "conn" })
      "reader"
      "pw"
      ("pg_monitor" ∷ [])
      (Call.sql_query "conn" user_exists_query ("reader" ∷ []) ∷ [])
      (world.on_query_bool [] "conn" user_exists_query ("reader" ∷ []))
      (create_or_update_user ⦃env = world⦄
        (record { db = "conn" })
        "reader"
        "pw"
        ("pg_monitor" ∷ [])
        [])
create_or_update_user-ByAnswer_example =
    create_or_update_user-ByAnswer ⦃env = world⦄ (record { db = "conn" }) "reader" "pw"
      ("pg_monitor" ∷ []) [] refl

-- The reader, ready on one of two instances.
abbrev leaving : PostgresUser
leaving = record reader {
  status = record (reader.status) {
    instance_statuses =
        record { name = "a"; ready = true; message = ""; last_updated = none }
        ∷ record { name = "b"; ready = false; message = "down"; last_updated = some 7 }
        ∷ [];
  };
}

handle_user_deletion-Makes_example :
    Makes (Unfinalizes world leaving) (handle_user_deletion ⦃env = world⦄ leaving)
handle_user_deletion-Makes_example =
    handle_user_deletion-Makes ⦃env = world⦄ leaving (record { name = "db"; namespace = "" })
      world-IsCalm refl

-- The user after a rotation at time 100.
abbrev rotated_reader : PostgresUser
rotated_reader = record reader {
  status = record (reader.status) { last_password_change = some 100 };
}

abbrev reader_password : PasswordSpec
reader_password = record {
  secret_ref = none;
  generate = true;
  length = pos 20;
  rotation_policy = none;
}

rotated_reader_lem : (rotate_password ⦃env = vault⦄ reader reader_password []).0 ≡ ok rotated_reader
unfolding rotate_password generate_password characters Action.steps
rotated_reader_lem = refl

rotate_password-read_example :
    (p : String) × ((generate_password ⦃env = vault⦄ (password_length reader_password) []).0 ≡ ok p)
    × ((get_password_from_secret ⦃env = vault⦄ rotated_reader
          (Call.now ∷ (rotate_password ⦃env = vault⦄ reader reader_password []).1)).0
        ≡ ok p)
rotate_password-read_example =
    rotate_password-read ⦃env = vault⦄ reader rotated_reader reader_password [] _ vault-KeepsKey
      vault-KeepsSecrets refl refl rotated_reader_lem (more Call.now tt same)

-- A user with no limit on connections.
abbrev unlimited : PostgresUser
unlimited = record reader { spec = record (reader.spec) { connection_limit = negsuc 0 } }

configure_user-LeavesLimits_example : Emits (LeavesLimits world) (
    configure_user ⦃env = world⦄ unlimited "pw" "a"
      (record { db = "conn" })
      (record { statuses = []; failure = none }))
configure_user-LeavesLimits_example =
    configure_user-LeavesLimits ⦃env = world⦄ unlimited "pw" "a" (record { db = "conn" })
      (record { statuses = []; failure = none }) refl
