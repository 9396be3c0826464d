-- ===== src/Kube/Emits.antt =====
-- Which calls an action can make, whatever the world answers: one rule for each way to build one.
use postgres_cluster_operato.Common.{
  ℕ, String, Bool, true, false, Option, none, some, List, ◌∷◌, if◌then◌else◌, ◌≡◌, refl,
}
use postgres_cluster_operato.Api.Meta.{NamespacedName}
use postgres_cluster_operato.Kube.Objects.{Secret}
use postgres_cluster_operato.Kube.Env.{
  Error, Result, ok, err, panicked, Kind, Obj, as_object, Call, History, Env,
}
use postgres_cluster_operato.Kube.Action

-- The calls made since the first history all satisfy `P`.
pub data Extends (P : Call → Type 0) (h : History) : History → Type 0 where
  same : Extends P h h
  more : {h' : History} (c : Call) → P c → Extends P h h' → Extends P h (c ∷ h')

pub Extends-trans :
    {P : Call → Type 0} {h h' h'' : History} → Extends P h h' → Extends P h' h'' → Extends P h h''
Extends-trans e same = e
Extends-trans e (more c p r) = more c p (Extends-trans e r)

pub Extends-mono :
    {P Q : Call → Type 0} {h h' : History}
    → ((c : Call) → P c → Q c)
    → Extends P h h'
    → Extends Q h h'
Extends-mono f same = same
Extends-mono f (more c p r) = more c (f c p) (Extends-mono f r)

-- Every call that `m` makes, on any history, satisfies `P`.
pub record Emits {A : Type 0} (P : Call → Type 0) (m : Action.Action A) : Type 0 where
  pub at : (h : History) → Extends P h (m h).1

module _ {P : Call → Type 0} {A : Type 0} where
  pub Emits-pure : (a : A) → Emits P (Action.pure a)
  unfolding Action.pure
  Emits-pure a = record { at = λ h. same }

  pub Emits-raise : (e : Error) → Emits P (Action.raise {A = A} e)
  unfolding Action.raise
  Emits-raise e = record { at = λ h. same }

  pub Emits-lift : (r : Result A) → Emits P (Action.lift r)
  unfolding Action.lift
  Emits-lift r = record { at = λ h. same }

  deref_at : (o : Option A) (h : History) → Extends P h (Action.deref o h).1
  unfolding Action.deref
  deref_at none h = same
  deref_at (some a) h = same

  pub Emits-deref : (o : Option A) → Emits P (Action.deref o)
  Emits-deref o = record { at = deref_at o }

  pub Emits-if :
      (b : Bool) (m n : Action.Action A) → Emits P m → Emits P n → Emits P (if b then m else n)
  Emits-if true m n em en = em
  Emits-if false m n em en = en

module _ {P : Call → Type 0} where
  pub Emits-when : (b : Bool) (m : Action.Action Action.⊤) → Emits P m → Emits P (Action.when b m)
  unfolding Action.pure
  Emits-when true m em = em
  Emits-when false m em = record { at = λ h. same }

module _ {P : Call → Type 0} {A B : Type 0} where
  pub Emits-option :
      (o : Option A) (m : Action.Action B) (f : A → Action.Action B)
      → Emits P m
      → ((a : A) → Emits P (f a))
      → Emits P (Action.option o m f)
  unfolding Action.option
  Emits-option none m f em ef = em
  Emits-option (some a) m f em ef = ef a

  handle_at :
      (r : Result A) (failed : Error → Action.Action B) (done : A → Action.Action B)
      → ((e : Error) → Emits P (failed e))
      → ((a : A) → Emits P (done a))
      → (h : History) → Extends P h (Action.handle (Action.lift r) failed done h).1
  unfolding Action.handle Action.lift
  handle_at (ok a) failed done ef ed h = (ed a).at h
  handle_at (err e) failed done ef ed h = (ef e).at h
  handle_at panicked failed done ef ed h = same

  pub Emits-handle :
      (m : Action.Action A) (failed : Error → Action.Action B) (done : A → Action.Action B)
      → Emits P m
      → ((e : Error) → Emits P (failed e))
      → ((a : A) → Emits P (done a))
      → Emits P (Action.handle m failed done)
  unfolding Action.handle Action.lift
  Emits-handle m failed done em ef ed = record {
    at = λ h. Extends-trans (em.at h) (handle_at (m h).0 failed done ef ed (m h).1);
  }

  bind_at :
      (r : Result A) (f : A → Action.Action B)
      → ((a : A) → Emits P (f a))
      → (h : History) → Extends P h (Action.◌>>=◌ (Action.lift r) f h).1
  unfolding Action.◌>>=◌ Action.lift
  bind_at (ok a) f ef h = (ef a).at h
  bind_at (err e) f ef h = same
  bind_at panicked f ef h = same

  pub Emits-bind :
      (m : Action.Action A) (f : A → Action.Action B)
      → Emits P m
      → ((a : A) → Emits P (f a))
      → Emits P (Action.◌>>=◌ m f)
  unfolding Action.◌>>=◌ Action.lift
  Emits-bind m f em ef = record { at = λ h. Extends-trans (em.at h) (bind_at (m h).0 f ef (m h).1) }

-- Whenever `m` returns a value, the value satisfies `Q`.
pub record Returns {A : Type 0} (Q : A → Type 0) (m : Action.Action A) : Type 0 where
  pub at : (h : History) (a : A) → (m h).0 ≡ ok a → Q a

module _ {P : Call → Type 0} {A B : Type 0} (Q : A → Type 0) where
  handle_when_at :
      (r : Result A) (failed : Error → Action.Action B) (done : A → Action.Action B)
      → ((a : A) → r ≡ ok a → Q a)
      → ((e : Error) → Emits P (failed e))
      → ((a : A) → Q a → Emits P (done a))
      → (h : History) → Extends P h (Action.handle (Action.lift r) failed done h).1
  unfolding Action.handle Action.lift
  handle_when_at (ok a) failed done q ef ed h = (ed a (q a refl)).at h
  handle_when_at (err e) failed done q ef ed h = (ef e).at h
  handle_when_at panicked failed done q ef ed h = same

  -- As `Emits-handle`, where the rest may use what is known of the value.
  pub Emits-handle_when :
      (m : Action.Action A) (failed : Error → Action.Action B) (done : A → Action.Action B)
      → Returns Q m
      → Emits P m
      → ((e : Error) → Emits P (failed e))
      → ((a : A) → Q a → Emits P (done a))
      → Emits P (Action.handle m failed done)
  unfolding Action.handle Action.lift
  Emits-handle_when m failed done q em ef ed = record {
    at = λ h. Extends-trans (em.at h) (handle_when_at (m h).0 failed done (q.at h) ef ed (m h).1);
  }

  bind_when_at :
      (r : Result A) (f : A → Action.Action B)
      → ((a : A) → r ≡ ok a → Q a)
      → ((a : A) → Q a → Emits P (f a))
      → (h : History) → Extends P h (Action.◌>>=◌ (Action.lift r) f h).1
  unfolding Action.◌>>=◌ Action.lift
  bind_when_at (ok a) f q ef h = (ef a (q a refl)).at h
  bind_when_at (err e) f q ef h = same
  bind_when_at panicked f q ef h = same

  pub Emits-bind_when :
      (m : Action.Action A) (f : A → Action.Action B)
      → Returns Q m
      → Emits P m
      → ((a : A) → Q a → Emits P (f a))
      → Emits P (Action.◌>>=◌ m f)
  unfolding Action.◌>>=◌ Action.lift
  Emits-bind_when m f q em ef = record {
    at = λ h. Extends-trans (em.at h) (bind_when_at (m h).0 f (q.at h) ef (m h).1);
  }

module _ {P : Call → Type 0} {A : Type 0} where
  pub Emits-finally :
      (m : Action.Action A) (c : Action.Action Action.⊤)
      → Emits P m
      → Emits P c
      → Emits P (Action.finally m c)
  unfolding Action.finally
  Emits-finally m c em ec = record { at = λ h. Extends-trans (em.at h) (ec.at (m h).1) }

module _ {P : Call → Type 0} ⦃env : Env⦄ where
  pub Emits-get :
      (k : Kind) (key : NamespacedName) → P (Call.get k key) → Emits P (Action.get k key)
  unfolding Action.get
  Emits-get k key p = record { at = λ h. more _ p same }

  pub Emits-create :
      (k : Kind) (o : Obj k) → P (Call.create (as_object k o)) → Emits P (Action.create k o)
  unfolding Action.create
  Emits-create k o p = record { at = λ h. more _ p same }

  pub Emits-update :
      (k : Kind) (o : Obj k) → P (Call.update (as_object k o)) → Emits P (Action.update k o)
  unfolding Action.update
  Emits-update k o p = record { at = λ h. more _ p same }

  pub Emits-update_status :
      (k : Kind) (o : Obj k)
      → P (Call.update_status (as_object k o))
      → Emits P (Action.update_status k o)
  unfolding Action.update_status
  Emits-update_status k o p = record { at = λ h. more _ p same }

  pub Emits-delete :
      (k : Kind) (key : NamespacedName) → P (Call.delete k key) → Emits P (Action.delete k key)
  unfolding Action.delete
  Emits-delete k key p = record { at = λ h. more _ p same }

  pub Emits-create_or_update :
      (o : Secret) (f : Secret → Secret)
      → P (Call.create_or_update o f)
      → Emits P (Action.create_or_update_secret o f)
  unfolding Action.create_or_update_secret
  Emits-create_or_update o f p = record { at = λ h. more _ p same }

  pub Emits-now : P Call.now → Emits P Action.now
  unfolding Action.now
  Emits-now p = record { at = λ h. more _ p same }

  pub Emits-rand_int : (n : ℕ) → P (Call.rand_int n) → Emits P (Action.rand_int n)
  unfolding Action.rand_int
  Emits-rand_int n p = record { at = λ h. more _ p same }

  pub Emits-sql_open : (c : String) → P (Call.sql_open c) → Emits P (Action.sql_open c)
  unfolding Action.sql_open
  Emits-sql_open c p = record { at = λ h. more _ p same }

  pub Emits-sql_ping : (c : String) → P (Call.sql_ping c) → Emits P (Action.sql_ping c)
  unfolding Action.sql_ping
  Emits-sql_ping c p = record { at = λ h. more _ p same }

  pub Emits-sql_close : (c : String) → P (Call.sql_close c) → Emits P (Action.sql_close c)
  unfolding Action.sql_close
  Emits-sql_close c p = record { at = λ h. more _ p same }

  pub Emits-sql_exec :
      (c q : String) (args : List String)
      → P (Call.sql_exec c q args)
      → Emits P (Action.sql_exec c q args)
  unfolding Action.sql_exec
  Emits-sql_exec c q args p = record { at = λ h. more _ p same }

  pub Emits-query_bool :
      (c q : String) (args : List String)
      → P (Call.sql_query c q args)
      → Emits P (Action.query_bool c q args)
  unfolding Action.query_bool
  Emits-query_bool c q args p = record { at = λ h. more _ p same }

  pub Emits-query_text :
      (c q : String) (args : List String)
      → P (Call.sql_query c q args)
      → Emits P (Action.query_text c q args)
  unfolding Action.query_text
  Emits-query_text c q args p = record { at = λ h. more _ p same }

pub ruleset emits_rules = (
  Emits-pure, Emits-raise, Emits-lift, Emits-deref, Emits-if, Emits-when, Emits-option,
  Emits-handle, Emits-bind, Emits-finally, Emits-get, Emits-create, Emits-update,
  Emits-update_status, Emits-create_or_update, Emits-now, Emits-rand_int, Emits-sql_open,
  Emits-sql_ping, Emits-sql_close, Emits-sql_exec, Emits-query_bool, Emits-query_text,
)

-- To hand a recursive call to `search` as a hypothesis.
pub given : {A B : Type 0} → A → (A → B) → B
given a f = f a

pub Emits-weaken :
    {A : Type 0} {P Q : Call → Type 0} (m : Action.Action A)
    → ((c : Call) → P c → Q c)
    → Emits P m
    → Emits Q m
Emits-weaken m f e = record { at = λ h. Extends-mono f (e.at h) }

-- The calls that delete nothing.
abbrev pub DeletesNothing : Call → Type 0
DeletesNothing (Call.get k key) = Unit
DeletesNothing (Call.delete k key) = ⊥
DeletesNothing _ = Unit
