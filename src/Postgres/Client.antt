-- ===== src/Postgres/Client.antt =====
-- internal/postgres/client.go: the SQL that the operator sends to an instance.
pub mod Provisions
pub mod Guards
pub mod Statements
use postgres_cluster_operato.Common.{
  String, ◌<>◌, ℤ, negsuc, ltb_ℤ, decimal, Bool, true, false, not, ◌||◌, Option, none, some, List,
  [], ◌∷◌, lookup, contains, ◌==◌, string_eq, if◌then◌else◌,
}
use postgres_cluster_operato.Api.Meta.{namespaced}
use postgres_cluster_operato.Api.Cluster.{PostgresCluster}
use postgres_cluster_operato.Kube.Env.{Env, secret}
use postgres_cluster_operato.Kube.Action.{
  Action, ⊤, ◌>>=◌, ◌>>◌, pure, raise, error, wrap_error, handle, option, within, when, get,
  sql_open, sql_ping, sql_close, sql_exec, query_bool, query_int, query_text,
}

-- `Client`: a database handle, named by its connection string.
pub record Client : Type 0 where
  pub db : String

-- `DatabaseStats`
pub record DatabaseStats : Type 0 where
  pub size : ℤ
  pub connections : ℤ
  pub tables : ℤ

abbrev pub system_users : List String
system_users =
    "postgres" ∷ "template0" ∷ "template1" ∷ "pg_monitor" ∷ "pg_read_all_settings"
    ∷ "pg_read_all_stats" ∷ "pg_stat_scan_tables" ∷ "pg_read_server_files" ∷ "pg_write_server_files"
    ∷ "pg_execute_server_program" ∷ []

abbrev pub connection_string : PostgresCluster → String → String → String
connection_string cluster instance_name password =
    "host=" <> cluster.metadata.name <> "-" <> instance_name <> "." <> cluster.metadata.namespace
    <> ".svc.cluster.local" <> " port=5432 user=postgres password=" <> password <> " dbname="
    <> cluster.spec.database.name <> " sslmode=require connect_timeout=10"

abbrev pub user_exists_query : String
user_exists_query = "SELECT EXISTS(SELECT 1 FROM pg_user WHERE usename = $1)"

module _ ⦃env : Env⦄ where
  -- The ping closes the handle that does not answer.
  unfoldable pub new_client_for_instance : PostgresCluster → String → Action Client
  new_client_for_instance cluster instance_name = do
    credentials ← within "failed to get credentials secret" (
        get secret
          (namespaced cluster.metadata.namespace (cluster.metadata.name <> "-credentials")))
    password ←
        option (lookup "postgres-password" credentials.contents)
          (raise (error "postgres-password not found in secret")) pure
    let conn = connection_string cluster instance_name password
    within ("failed to open database connection to instance " <> instance_name) (sql_open conn)
    handle (sql_ping conn)
        (λ e. sql_close conn >> raise (wrap_error ("failed to ping instance " <> instance_name) e))
        pure
    pure (record { db = conn })

  unfoldable pub set_connection_limit : Client → String → ℤ → Action ⊤
  set_connection_limit c username limit =
      if username == ""
      then raise (error "username cannot be empty")
      else if ltb_ℤ limit (negsuc 0)
      then raise (
          error
            ("invalid connection limit: " <> decimal limit <> " (must be -1 for no limit or >= 0)"))
      else within ("failed to set connection limit for user " <> username) (
          sql_exec c.db
            ("ALTER USER "
              <> env.quote_identifier username
              <> " WITH CONNECTION LIMIT "
              <> decimal limit)
            [])

  -- The loop that grants the privileges.
  unfoldable pub grant_privileges : Client → String → List String → Action ⊤
  grant_privileges c username [] = pure tt
  grant_privileges c username (privilege ∷ rest) = do
    within ("failed to grant privilege " <> privilege)
        (sql_exec c.db ("GRANT " <> privilege <> " TO " <> env.quote_identifier username) [])
    grant_privileges c username rest

  unfoldable pub create_or_update_user : Client → String → String → List String → Action ⊤
  unfolding grant_privileges
  create_or_update_user c username password privileges =
      if username == "" || password == ""
      then raise (error "username and password cannot be empty")
      else (do
        exists ←
            within "failed to check if user exists"
              (query_bool c.db user_exists_query (username ∷ []))
        if exists
            then within "failed to update user password" (
                sql_exec c.db
                  ("ALTER USER " <> env.quote_identifier username <> " WITH PASSWORD $1")
                  (password ∷ []))
            else within "failed to create user" (
                sql_exec c.db
                  ("CREATE USER " <> env.quote_identifier username <> " WITH PASSWORD $1")
                  (password ∷ []))
        grant_privileges c username privileges)

  unfoldable pub get_current_database : Client → Action String
  get_current_database c =
      handle (query_text c.db "SELECT current_database()" []) (λ _. pure "postgres") pure

  -- A statement that fails is reported on the standard output, and the loop goes on.
  unfoldable pub exec_all : Client → List String → Action ⊤
  exec_all c [] = pure tt
  exec_all c (query ∷ rest) = handle (sql_exec c.db query []) (λ _. pure tt) pure >> exec_all c rest

  abbrev revocations : String → String → List String
  revocations database username =
      ("REVOKE ALL PRIVILEGES ON ALL TABLES IN SCHEMA public FROM "
        <> env.quote_identifier username)
      ∷ ("REVOKE ALL PRIVILEGES ON ALL SEQUENCES IN SCHEMA public FROM "
          <> env.quote_identifier username)
      ∷ ("REVOKE ALL PRIVILEGES ON ALL FUNCTIONS IN SCHEMA public FROM "
          <> env.quote_identifier username)
      ∷ ("REVOKE ALL PRIVILEGES ON SCHEMA public FROM " <> env.quote_identifier username)
      ∷ ("REVOKE ALL PRIVILEGES ON DATABASE "
          <> env.quote_identifier database
          <> " FROM "
          <> env.quote_identifier username)
      ∷ []

  unfoldable pub drop_user : Client → String → Action ⊤
  unfolding get_current_database exec_all
  drop_user c username =
      if username == ""
      then raise (error "username cannot be empty")
      else if contains username system_users
      then raise (error ("cannot drop system user: " <> username))
      else (do
        database ← get_current_database c
        exec_all c (revocations database username)
        within "failed to drop user"
            (sql_exec c.db ("DROP USER IF EXISTS " <> env.quote_identifier username) []))

  unfoldable pub grant_database_access : Client → String → String → Action ⊤
  grant_database_access c username database =
      if username == "" || database == ""
      then raise (error "username and database cannot be empty")
      else (do
        exists ←
            within "failed to check if user exists"
              (query_bool c.db user_exists_query (username ∷ []))
        when (not exists) (raise (error ("user " <> username <> " does not exist")))
        within "failed to grant connect privilege" (
            sql_exec c.db
              ("GRANT CONNECT ON DATABASE "
                <> env.quote_identifier database
                <> " TO "
                <> env.quote_identifier username)
              [])
        within "failed to grant schema usage"
            (sql_exec c.db ("GRANT USAGE ON SCHEMA public TO " <> env.quote_identifier username) [])
        within "failed to grant table privileges" (
            sql_exec c.db
              ("GRANT SELECT, INSERT, UPDATE, DELETE ON ALL TABLES IN SCHEMA public TO "
                <> env.quote_identifier username)
              [])
        within "failed to grant sequence privileges" (
            sql_exec c.db
              ("GRANT USAGE, SELECT ON ALL SEQUENCES IN SCHEMA public TO "
                <> env.quote_identifier username)
              []))

  -- The loop of `RevokeDatabaseAccess`, which stops at the first error.
  unfoldable pub exec_until_error : Client → List String → Action ⊤
  exec_until_error c [] = pure tt
  exec_until_error c (query ∷ rest) = do
    within ("failed to execute revoke query '" <> query <> "'") (sql_exec c.db query [])
    exec_until_error c rest

  unfoldable pub revoke_database_access : Client → String → String → Action ⊤
  unfolding exec_until_error
  revoke_database_access c username database =
      if username == "" || database == ""
      then raise (error "username and database cannot be empty")
      else exec_until_error c (
          ("REVOKE ALL PRIVILEGES ON ALL TABLES IN SCHEMA public FROM "
            <> env.quote_identifier username)
          ∷ ("REVOKE ALL PRIVILEGES ON ALL SEQUENCES IN SCHEMA public FROM "
              <> env.quote_identifier username)
          ∷ ("REVOKE USAGE ON SCHEMA public FROM " <> env.quote_identifier username)
          ∷ ("REVOKE CONNECT ON DATABASE "
              <> env.quote_identifier database
              <> " FROM "
              <> env.quote_identifier username)
          ∷ [])

  unfoldable pub get_database_stats : Client → Action DatabaseStats
  get_database_stats c = do
    size ←
        within "failed to get database size"
          (query_int c.db "SELECT pg_database_size(current_database())" [])
    connections ← within "failed to get connection count" (
        query_int c.db "SELECT count(*) FROM pg_stat_activity WHERE datname = current_database()"
          [])
    tables ← within "failed to get table count" (
        query_int c.db
          "SELECT count(*) FROM information_schema.tables WHERE table_schema = 'public'" [])
    pure (record { size = size; connections = connections; tables = tables })

  unfoldable pub close : Client → Action ⊤
  close c = sql_close c.db
