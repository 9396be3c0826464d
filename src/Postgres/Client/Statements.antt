-- ===== src/Postgres/Client/Statements.antt =====
-- The statements that `CreateOrUpdateUser` sends, in their order.
use postgres_cluster_operato.Kube.Action.{error}
use mathlib.Core.Path.{subst⁻¹, subst}
use postgres_cluster_operato.Kube.Clearing.{IsFailure}
use postgres_cluster_operato.Postgres.Client.{
  grant_privileges, Client, user_exists_query, create_or_update_user,
}
use postgres_cluster_operato.Common.{
  String, List, map, Bool, [], ◌≡◌, ◌∷◌, true, ◌<>◌, ◌==◌, ◌⊎◌, if◌then◌else◌, inl, refl, inr,
  false, ◌||◌, string_eq,
}
use postgres_cluster_operato.Kube.Env.{Env, Result, ok, err, History, panicked, Call}
use postgres_cluster_operato.Kube.Action

-- A statement with its arguments.
abbrev pub Statement : Type 0
Statement = String × List String

abbrev pub Succeeds : Result (Unit {0}) → Type 0
Succeeds (ok _) = Unit
Succeeds (err e) = ⊥
Succeeds panicked = ⊥

module _ (env : Env) (db : String) where
  -- The statements are executed one after the other, each with success.
  pub data Executes : List Statement → History → History → Type 0 where
    done : (h : History) → Executes [] h h
    next :
        (q : String) (args : List String) {ss : List Statement} {h h' : History}
        → Succeeds (env.on_sql_exec h db q args)
        → Executes ss (Call.sql_exec db q args ∷ h) h'
        → Executes ((q, args) ∷ ss) h h'

  -- The statements up to the first that fails.
  pub data Aborts : List Statement → History → History → Type 0 where
    here :
        (q : String) (args : List String) (ss : List Statement) (h : History)
        → ¬ (Succeeds (env.on_sql_exec h db q args))
        → Aborts ((q, args) ∷ ss) h (Call.sql_exec db q args ∷ h)
    there :
        (q : String) (args : List String) {ss : List Statement} {h h' : History}
        → Succeeds (env.on_sql_exec h db q args)
        → Aborts ss (Call.sql_exec db q args ∷ h) h'
        → Aborts ((q, args) ∷ ss) h h'

  -- All of them succeeded, and so did the function; or one failed, it was the last, and the
  -- function failed.
  abbrev pub Ran : List Statement → History → Result (Unit {0}) × History → Type 0
  Ran ss h out = (Executes ss h out.1 × Succeeds out.0) ⊎ (Aborts ss h out.1 × IsFailure out.0)

module _ ⦃env : Env⦄ (db : String) where
  Ran-next :
      (q : String) (args : List String) (ss : List Statement) (h : History)
      (out : Result (Unit {0}) × History)
      → Succeeds (env.on_sql_exec h db q args)
      → Ran env db ss (Call.sql_exec db q args ∷ h) out
      → Ran env db ((q, args) ∷ ss) h out
  Ran-next q args ss h out s (inl (e, o)) = inl (next q args s e, o)
  Ran-next q args ss h out s (inr (a, f)) = inr (there q args s a, f)

  answered :
      (context q : String) (args : List String) (ss : List Statement) (n : Action.Action Action.⊤)
      (h : History) (r : Result (Unit {0}))
      → env.on_sql_exec h db q args ≡ r
      → Ran env db ss (Call.sql_exec db q args ∷ h) (n (Call.sql_exec db q args ∷ h))
      → Ran env db ((q, args) ∷ ss) h (
          Action.◌>>=◌
            (Action.within context (Action.lift r))
            (λ _. n)
            (Call.sql_exec db q args ∷ h))
  unfolding Action.◌>>=◌ Action.handle Action.lift Action.pure Action.raise
  answered context q args ss n h (ok _) e k = Ran-next q args ss h _ (subst⁻¹ Succeeds e tt) k
  answered context q args ss n h (err x) e k = inr (here q args ss h (λ s. subst Succeeds e s), tt)
  answered context q args ss n h panicked e k = inr (here q args ss h (λ s. subst Succeeds e s), tt)

  exec_then :
      (context q : String) (args : List String) (ss : List Statement) (n : Action.Action Action.⊤)
      (h : History)
      → Ran env db ss (Call.sql_exec db q args ∷ h) (n (Call.sql_exec db q args ∷ h))
      → Ran env db
          ((q, args) ∷ ss)
          h
          (Action.◌>>=◌ (Action.within context (Action.sql_exec db q args)) (λ _. n) h)
  unfolding Action.◌>>=◌ Action.handle Action.lift Action.sql_exec
  exec_then context q args ss n h k =
      answered context q args ss n h (env.on_sql_exec h db q args) refl k

module _ ⦃env : Env⦄ where
  -- One grant for each privilege.
  abbrev pub grants : String → List String → List Statement
  grants username = map λ p. ("GRANT " <> p <> " TO " <> env.quote_identifier username, [])

  -- The password is changed or the user is made, and then the privileges are granted.
  abbrev pub statements : String → String → List String → Bool → List Statement
  statements username password privileges exists =
      (
        (if exists
            then "ALTER USER " <> env.quote_identifier username <> " WITH PASSWORD $1"
            else "CREATE USER " <> env.quote_identifier username <> " WITH PASSWORD $1"),
        password ∷ [],
      )
      ∷ grants username privileges

  grants-Ran :
      (c : Client) (username : String) (ps : List String) (h : History)
      → Ran env c.db (grants username ps) h (grant_privileges c username ps h)
  unfolding grant_privileges
  grants-Ran c username [] h = unfold Action.pure in inl (done h, tt)
  grants-Ran c username (p ∷ ps) h =
      exec_then c.db _ _ [] (grants username ps) (grant_privileges c username ps) h
        (grants-Ran c username ps _)

  -- What follows the answer to the question whether the user exists.
  abbrev pub ByAnswer :
      Client
      → String
      → String
      → List String
      → History
      → Result Bool
      → Result (Unit {0}) × History
      → Type 0
  ByAnswer c username password ps h (ok exists) out =
      Ran env c.db (statements username password ps exists) h out
  ByAnswer c username password ps h (err e) out = (out.1 ≡ h) × IsFailure out.0
  ByAnswer c username password ps h panicked out = (out.1 ≡ h) × IsFailure out.0

  module _ (c : Client) (username password : String) (ps : List String) where
    -- The rest of the function, once the answer is there.
    abbrev granting : Bool → Action.Action Action.⊤
    granting exists =
        Action.◌>>=◌
          (if exists
            then Action.within "failed to update user password" (
                Action.sql_exec c.db
                  ("ALTER USER " <> env.quote_identifier username <> " WITH PASSWORD $1")
                  (password ∷ []))
            else Action.within "failed to create user" (
                Action.sql_exec c.db
                  ("CREATE USER " <> env.quote_identifier username <> " WITH PASSWORD $1")
                  (password ∷ [])))
          (λ _. grant_privileges c username ps)

    granting-Ran :
        (exists : Bool) (h : History)
        → Ran env c.db (statements username password ps exists) h (granting exists h)
    granting-Ran true h = exec_then c.db _ _ _ _ _ h (grants-Ran c username ps _)
    granting-Ran false h = exec_then c.db _ _ _ _ _ h (grants-Ran c username ps _)

    by_answer :
        (r : Result Bool) (h : History)
        → ByAnswer c username password ps h r (
            Action.◌>>=◌
              (Action.within "failed to check if user exists" (Action.lift r))
              granting
              h)
    unfolding Action.◌>>=◌ Action.handle Action.lift Action.pure Action.raise
    by_answer (ok exists) h = granting-Ran exists h
    by_answer (err e) h = (refl, tt)
    by_answer panicked h = (refl, tt)

    -- With a name and a password that are not empty, CreateOrUpdateUser asks whether the user
    -- exists and fails with no further call where the answer is an error; else it alters the user
    -- that exists or creates the one that does not, and grants the privileges one by one in their
    -- order: all statements succeed and so does it, or one fails, is the last that is sent, and it
    -- fails.
    pub create_or_update_user-ByAnswer :
        (h : History)
        → ((username == "") || (password == "")) ≡ false
        → ByAnswer c username password ps
            (Call.sql_query c.db user_exists_query (username ∷ []) ∷ h)
            (env.on_query_bool h c.db user_exists_query (username ∷ []))
            (create_or_update_user c username password ps h)
    unfolding create_or_update_user Action.◌>>=◌ Action.handle Action.query_bool Action.lift
    create_or_update_user-ByAnswer h named =
        subst⁻¹
          (λ b.
            ByAnswer c username password ps
              (Call.sql_query c.db user_exists_query (username ∷ []) ∷ h)
              (env.on_query_bool h c.db user_exists_query (username ∷ []))
              ((if b
                  then Action.raise (error "username and password cannot be empty")
                  else Action.◌>>=◌
                      (Action.within "failed to check if user exists"
                        (Action.query_bool c.db user_exists_query (username ∷ [])))
                      granting)
                h))
          named
          (by_answer (env.on_query_bool h c.db user_exists_query (username ∷ []))
            (Call.sql_query c.db user_exists_query (username ∷ []) ∷ h))
