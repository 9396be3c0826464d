-- ===== src/Controllers/User/Reconcile/Provisions.antt =====
-- What `Reconcile` of a user may call.
use postgres_cluster_operato.Utils.Crypto.{generate_password}
use postgres_cluster_operato.Api.Meta.{NamespacedName}
use postgres_cluster_operato.Kube.Action
use postgres_cluster_operato.Postgres.Client.{Client}
use postgres_cluster_operato.Utils.Crypto.Draws.{generate_password-Emits}
use postgres_cluster_operato.Api.Cluster.{PostgresCluster}
use postgres_cluster_operato.Common.{String, Option, List, ◌∷◌, [], ◌≡◌, none, some, ℤ}
use postgres_cluster_operato.Api.User.{PostgresUser, PasswordSpec, PostgresUserStatus}
use postgres_cluster_operato.Controllers.User.Reconcile.{
  reconcile_with_cluster, fail_with, reconcile_targets, reconcile_user, reconcile_access,
}
use postgres_cluster_operato.Controllers.User.Password.{
  should_rotate_password, rotate_password, get_password_from_secret, reconcile_password_secret,
}
use postgres_cluster_operato.Controllers.User.Instances.{
  configure_instances, reconcile_user_on_instances, Progress, configure_user,
}
use postgres_cluster_operato.Controllers.User.Targets.{
  get_cluster, get_target_instances, some_names,
}
use postgres_cluster_operato.Postgres.Client.Provisions.{
  new_client-Provisions, create_or_update_user-Provisions, set_connection_limit-Provisions,
  close-Provisions, Provisions,
}
use postgres_cluster_operato.Controllers.User.Status.{update_user_status}
use postgres_cluster_operato.Kube.Env.{Env, Error, postgres_user, postgres_cluster, History, ok}
use postgres_cluster_operato.Kube.Emits.{
  emits_rules, Emits, Emits-bind, Emits-update_status, Emits-deref, Emits-get, Emits-handle_when,
  Returns, Emits-if, Emits-handle, Emits-update, Emits-pure,
}

generated-Provisions : ⦃env : Env⦄ (l : ℤ) → Emits (Provisions env) (generate_password l)
generated-Provisions = generate_password-Emits (λ n. tt)

ruleset rules = (
  emits_rules, tt, new_client-Provisions, create_or_update_user-Provisions,
  set_connection_limit-Provisions, close-Provisions, generated-Provisions,
)

module _ ⦃env : Env⦄ where
  get_cluster-Provisions : (u : PostgresUser) → Emits (Provisions env) (get_cluster u)
  unfolding get_cluster
  get_cluster-Provisions u =
      Emits-bind _ _ (Emits-deref _) (λ ref. Emits-get {P = Provisions env} postgres_cluster _ tt)

  some_names-Provisions :
      (message : String) (names : List String) → Emits (Provisions env) (some_names message names)
  unfolding some_names
  some_names-Provisions message [] = search rules
  some_names-Provisions message (n ∷ names) = search rules

  targets-Provisions :
      (u : PostgresUser) (c : Option PostgresCluster)
      → Emits (Provisions env) (get_target_instances u c)
  unfolding get_target_instances
  targets-Provisions u c = search (rules, some_names-Provisions) depth 9

  rotate-Provisions :
      (u : PostgresUser) (spec : PasswordSpec) → Emits (Provisions env) (rotate_password u spec)
  unfolding rotate_password
  rotate-Provisions u spec = search rules depth 9

  should_rotate-Provisions :
      (u : PostgresUser) (spec : PasswordSpec)
      → Emits (Provisions env) (should_rotate_password u spec)
  unfolding should_rotate_password
  should_rotate-Provisions u spec = search rules depth 9

  secret-Provisions : (u : PostgresUser) → Emits (Provisions env) (reconcile_password_secret u)
  unfolding reconcile_password_secret
  secret-Provisions u = search (rules, rotate-Provisions, should_rotate-Provisions) depth 9

  password-Provisions : (u : PostgresUser) → Emits (Provisions env) (get_password_from_secret u)
  unfolding get_password_from_secret
  password-Provisions u = search rules depth 9

  configure_user-Provisions :
      (u : PostgresUser) (password name : String) (c : Client) (p : Progress)
      → Emits (Provisions env) (configure_user u password name c p)
  unfolding configure_user
  configure_user-Provisions u password name c p = search rules depth 9

  configure_instances-Provisions :
      (u : PostgresUser) (c : Option PostgresCluster) (password : String) (names : List String)
      (p : Progress)
      → Emits (Provisions env) (configure_instances u c password names p)
  unfolding configure_instances
  configure_instances-Provisions u c password [] p = search rules
  configure_instances-Provisions u c password (n ∷ names) p =
      search
        (
          rules,
          configure_user-Provisions,
          λ (p : Progress). configure_instances-Provisions u c password names p,
        )
        depth 9

  instances-Provisions :
      (u : PostgresUser) (c : Option PostgresCluster) (names : List String)
      → Emits (Provisions env) (reconcile_user_on_instances u c names)
  unfolding reconcile_user_on_instances
  instances-Provisions u c names =
      search (rules, password-Provisions, configure_instances-Provisions)

  status-Provisions :
      (u : PostgresUser) (s : PostgresUserStatus) → Emits (Provisions env) (update_user_status u s)
  unfolding update_user_status
  status-Provisions u s = Emits-update_status {P = Provisions env} postgres_user _ tt

  fail_with-Provisions :
      (u : PostgresUser) (message : String) (e : Error)
      → Emits (Provisions env) (fail_with u message e)
  unfolding fail_with
  fail_with-Provisions u message e = search (rules, status-Provisions)

  reconcile_targets-Provisions :
      (u : PostgresUser) (c : Option PostgresCluster) (names : List String)
      → Emits (Provisions env) (reconcile_targets u c names)
  unfolding reconcile_targets
  reconcile_targets-Provisions u c names =
      search (rules, instances-Provisions, status-Provisions) depth 9

  pub access-Provisions :
      (u : PostgresUser) (c : Option PostgresCluster)
      → Emits (Provisions env) (reconcile_access u c)
  unfolding reconcile_access
  access-Provisions u c =
      search
        (
          rules, targets-Provisions, secret-Provisions, fail_with-Provisions,
          reconcile_targets-Provisions,
        )
        depth 12

  with_cluster-Provisions :
      (u : PostgresUser) (c : Option PostgresCluster) (e : Option Error)
      → Emits (Provisions env) (reconcile_with_cluster u c e)
  unfolding reconcile_with_cluster
  with_cluster-Provisions u c e = search (rules, status-Provisions, access-Provisions)

  abbrev IsLive : PostgresUser → Type 0
  IsLive u = u.metadata.deletion_timestamp ≡ none

  get-IsLive :
      (key : NamespacedName)
      → ((h : History) (u : PostgresUser)
          → env.on_get h postgres_user key ≡ ok u
          → u.metadata.deletion_timestamp ≡ none)
      → Returns IsLive (Action.get postgres_user key)
  unfolding Action.get
  get-IsLive key unmarked = record { at = unmarked }

  -- Reconcile of a user, where the server's answers for it carry no deletion timestamp, executes
  -- on the databases only statements that alter or create a user with a password, set a connection
  -- limit or grant a privilege, and on the server writes only users, their statuses and secrets,
  -- and deletes nothing.
  pub reconcile_user-Provisions :
      (key : NamespacedName)
      → ((h : History) (u : PostgresUser)
          → env.on_get h postgres_user key ≡ ok u
          → u.metadata.deletion_timestamp ≡ none)
      → Emits (Provisions env) (reconcile_user key)
  unfolding reconcile_user
  reconcile_user-Provisions key unmarked =
      Emits-handle_when IsLive _ _ _ (get-IsLive key unmarked)
        (Emits-get {P = Provisions env} postgres_user key tt) (λ e. search rules)
        (λ u live. simp live (
          Emits-if _ _ _
            (Emits-handle _ _ _ (get_cluster-Provisions u)
              (λ e. with_cluster-Provisions u none (some e))
              (λ c. with_cluster-Provisions u (some c) none))
            (Emits-bind _ _ (Emits-update {P = Provisions env} postgres_user _ tt)
              (λ _. Emits-pure _))))
