-- ===== src/Postgres/Client/Guards.antt =====
-- Which statements the client refuses to send.
-- A statement on the database.
use postgres_cluster_operato.Kube.Emits.{
  Emits, Emits-handle, Emits-pure, Emits-query_text, Emits-sql_exec, Emits-bind, Emits-raise,
}
use postgres_cluster_operato.Postgres.Client.{
  exec_all, Client, set_connection_limit, drop_user, get_current_database, system_users,
  revocations,
}
use postgres_cluster_operato.Common.{
  Bool, String, ℤ, List, ◌≡◌, false, ◌==◌, if◌then◌else◌, contains, negsuc, ◌∷◌, refl, ◌≤ℤ◌, [],
  true, string_eq, arith, ltb_ℤ,
}
use postgres_cluster_operato.Kube.Env.{Env, Call, Error}
use postgres_cluster_operato.Kube.Action

abbrev pub On : String → Call → Type 0
On conn (Call.get k key) = ⊥
On conn (Call.sql_query c q args) = c ≡ conn
On conn (Call.sql_exec c q args) = c ≡ conn
On conn _ = ⊥

-- What holds of every call, on the client's database.
abbrev pub Only : Type 0 → String → Call → Type 0
Only P conn call = P × On conn call

-- Guards are checked before a call is made.
Emits-guard :
    {A : Type 0} {P : Type 0} (b : Bool) (conn : String) (e : Error) (m : Action.Action A)
    → (b ≡ false → Emits (Only P conn) m)
    → Emits (Only P conn) (if b then Action.raise e else m)
Emits-guard true conn e m k = Emits-raise e
Emits-guard false conn e m k = k refl

not_below : (limit : ℤ) → ltb_ℤ limit (negsuc 0) ≡ false → negsuc 0 ≤ℤ limit
not_below limit h = ground arith

module _ ⦃env : Env⦄ where
  exec_all-On :
      (P : Type 0) (c : Client) (queries : List String)
      → P
      → Emits (Only P c.db) (exec_all c queries)
  unfolding exec_all
  exec_all-On P c [] p = Emits-pure _
  exec_all-On P c (q ∷ qs) p =
      Emits-bind _ _
        (Emits-handle _ _ _ (Emits-sql_exec _ _ _ (p, refl)) (λ e. Emits-pure _)
          (λ _. Emits-pure _))
        (λ _. exec_all-On P c qs p)

  database-On : (P : Type 0) (c : Client) → P → Emits (Only P c.db) (get_current_database c)
  unfolding get_current_database
  database-On P c p =
      Emits-handle _ _ _ (Emits-query_text _ _ _ (p, refl)) (λ e. Emits-pure _) (λ _. Emits-pure _)

  exec-On :
      (P : Type 0) (c : Client) (context query : String) (args : List String)
      → P
      → Emits (Only P c.db) (Action.within context (Action.sql_exec c.db query args))
  exec-On P c context query args p =
      Emits-handle _ _ _ (Emits-sql_exec _ _ _ (p, refl)) (λ e. Emits-raise _) (λ _. Emits-pure _)

  -- DropUser makes calls only for a name that is not empty and not one of the system's users, and
  -- only on the client's own database.
  drop_user-guard :
      (c : Client) (username : String)
      → Emits
          (Only (((username == "") ≡ false) × (contains username system_users ≡ false)) c.db)
          (drop_user c username)
  unfolding drop_user
  drop_user-guard c username = Emits-guard _ _ _ _ λ named. Emits-guard _ _ _ _ λ allowed.
      Emits-bind _ _ (database-On _ c (named, allowed)) λ database.
        Emits-bind _ _ (exec_all-On _ c (revocations database username) (named, allowed))
          λ _. exec-On _ c _ _ _ (named, allowed)

  -- SetConnectionLimit makes calls only for a name that is not empty and a limit of -1 at least,
  -- and only on the client's own database.
  set_connection_limit-guard :
      (c : Client) (username : String) (limit : ℤ)
      → Emits
          (Only (((username == "") ≡ false) × (negsuc 0 ≤ℤ limit)) c.db)
          (set_connection_limit c username limit)
  unfolding set_connection_limit
  set_connection_limit-guard c username limit =
      Emits-guard _ _ _ _
        λ named. Emits-guard _ _ _ _ λ above. exec-On _ c _ _ _ (named, not_below limit above)

  -- DropUser makes calls only for a name that is not empty and not one of the system's users,
  -- SetConnectionLimit only for a name that is not empty and a limit of -1 at least, and both only
  -- on the client's own database.
  pub statements-guard :
      (c : Client) (username : String) (limit : ℤ)
      → Emits
          (Only (((username == "") ≡ false) × (contains username system_users ≡ false)) c.db)
          (drop_user c username)
        × Emits
            (Only (((username == "") ≡ false) × (negsuc 0 ≤ℤ limit)) c.db)
            (set_connection_limit c username limit)
  statements-guard c username limit =
      (drop_user-guard c username, set_connection_limit-guard c username limit)
