-- ===== src/Kube/Calm.antt =====
-- Actions that do not panic, in a world whose answers do not.
use postgres_cluster_operato.Api.Meta.{NamespacedName, ObjectMeta}
use postgres_cluster_operato.Kube.Emits.{Returns}
use postgres_cluster_operato.Common.{
  Bool, some, Option, if◌then◌else◌, ◌≢◌, String, List, true, ◌≡◌, arith, none, false, refl,
}
use postgres_cluster_operato.Kube.Env.{
  ok, Env, Error, Result, Kind, err, History, Obj, panicked, Object, as_object,
}
use postgres_cluster_operato.Kube.Action

pub record Calm {A : Type 0} (m : Action.Action A) : Type 0 where
  pub at : (h : History) → (m h).0 ≢ panicked

-- No answer of the world is a panic: what it calls returns a value or an error.
pub record IsCalm (env : Env) : Type 0 where
  pub on_get : (h : History) (k : Kind) (key : NamespacedName) → env.on_get h k key ≢ panicked
  pub on_create : (h : History) (o : Object) → env.on_create h o ≢ panicked
  pub controller_reference :
      (k : Kind) (owner m : ObjectMeta) → env.controller_reference k owner m ≢ panicked
  pub on_sql_open : (h : History) (c : String) → env.on_sql_open h c ≢ panicked
  pub on_sql_ping : (h : History) (c : String) → env.on_sql_ping h c ≢ panicked
  pub on_sql_exec :
      (h : History) (c q : String) (args : List String) → env.on_sql_exec h c q args ≢ panicked
  pub on_query_bool :
      (h : History) (c q : String) (args : List String) → env.on_query_bool h c q args ≢ panicked
  pub on_query_text :
      (h : History) (c q : String) (args : List String) → env.on_query_text h c q args ≢ panicked

module _ {A : Type 0} where
  ok-panicked : (a : A) → ok a ≢ panicked
  ok-panicked a e = ground arith

  abbrev failing : Error → Result A
  failing x = err x

  err-panicked : (x : Error) → failing x ≢ panicked
  err-panicked x e = ground arith

  pub Calm-pure : (a : A) → Calm (Action.pure a)
  unfolding Action.pure
  Calm-pure a = record { at = λ h. ok-panicked a }

  pub Calm-raise : (x : Error) → Calm (Action.raise {A = A} x)
  unfolding Action.raise
  Calm-raise x = record { at = λ h. err-panicked x }

  pub Calm-lift : (r : Result A) → r ≢ panicked → Calm (Action.lift r)
  unfolding Action.lift
  Calm-lift r n = record { at = λ h. n }

  pub Calm-deref : (a : A) → Calm (Action.deref (some a))
  unfolding Action.deref
  Calm-deref a = record { at = λ h. ok-panicked a }

  pub Calm-if : (b : Bool) (m n : Action.Action A) → Calm m → Calm n → Calm (if b then m else n)
  Calm-if true m n cm cn = cm
  Calm-if false m n cm cn = cn

  pub Calm-finally :
      (m : Action.Action A) (c : Action.Action Action.⊤) → Calm m → Calm (Action.finally m c)
  unfolding Action.finally
  Calm-finally m c k = record { at = λ h. k.at h }

pub Calm-when : (b : Bool) (m : Action.Action Action.⊤) → Calm m → Calm (Action.when b m)
Calm-when true m c = c
Calm-when false m c = Calm-pure tt

module _ {A B : Type 0} where
  pub Calm-option :
      (o : Option A) (m : Action.Action B) (f : A → Action.Action B)
      → Calm m
      → ((a : A) → Calm (f a))
      → Calm (Action.option o m f)
  unfolding Action.option
  Calm-option none m f cm cf = cm
  Calm-option (some a) m f cm cf = cf a

  handle_at :
      (r : Result A) (failed : Error → Action.Action B) (done : A → Action.Action B)
      → r ≢ panicked
      → ((e : Error) → Calm (failed e))
      → ((a : A) → r ≡ ok a → Calm (done a))
      → (h : History) → (Action.handle (Action.lift r) failed done h).0 ≢ panicked
  unfolding Action.handle Action.lift
  handle_at (ok a) failed done n cf cd h = (cd a refl).at h
  handle_at (err e) failed done n cf cd h = (cf e).at h
  handle_at panicked failed done n cf cd h = λ _. n refl

  pub Calm-handle :
      (m : Action.Action A) (failed : Error → Action.Action B) (done : A → Action.Action B)
      → Calm m
      → ((e : Error) → Calm (failed e))
      → ((a : A) → Calm (done a))
      → Calm (Action.handle m failed done)
  unfolding Action.handle Action.lift
  Calm-handle m failed done cm cf cd = record {
    at = λ h. handle_at (m h).0 failed done (cm.at h) cf (λ a _. cd a) (m h).1;
  }

  bind_at :
      (r : Result A) (f : A → Action.Action B)
      → r ≢ panicked
      → ((a : A) → r ≡ ok a → Calm (f a))
      → (h : History) → (Action.◌>>=◌ (Action.lift r) f h).0 ≢ panicked
  unfolding Action.◌>>=◌ Action.lift
  bind_at (ok a) f n cf h = (cf a refl).at h
  bind_at (err e) f n cf h = err-panicked e
  bind_at panicked f n cf h = λ _. n refl

  pub Calm-bind :
      (m : Action.Action A) (f : A → Action.Action B)
      → Calm m
      → ((a : A) → Calm (f a))
      → Calm (Action.◌>>=◌ m f)
  unfolding Action.◌>>=◌ Action.lift
  Calm-bind m f cm cf = record { at = λ h. bind_at (m h).0 f (cm.at h) (λ a _. cf a) (m h).1 }

  pub Calm-bind_when :
      (P : A → Type 0) (m : Action.Action A) (f : A → Action.Action B)
      → Returns P m
      → Calm m
      → ((a : A) → P a → Calm (f a))
      → Calm (Action.◌>>=◌ m f)
  unfolding Action.◌>>=◌ Action.lift
  Calm-bind_when P m f p cm cf = record {
    at = λ h. bind_at (m h).0 f (cm.at h) (λ a e. cf a (p.at h a e)) (m h).1;
  }

module _ ⦃env : Env⦄ where
  pub Calm-get : (k : Kind) (key : NamespacedName) → IsCalm env → Calm (Action.get k key)
  unfolding Action.get
  Calm-get k key c = record { at = λ h. c.on_get h k key }

  pub Calm-create : (k : Kind) (o : Obj k) → IsCalm env → Calm (Action.create k o)
  unfolding Action.create
  Calm-create k o c = record { at = λ h. c.on_create h (as_object k o) }

  pub Calm-reference :
      (k : Kind) (owner m : ObjectMeta)
      → IsCalm env
      → Calm (Action.lift (env.controller_reference k owner m))
  Calm-reference k owner m c = Calm-lift _ (c.controller_reference k owner m)

  pub Calm-now : Calm Action.now
  unfolding Action.now
  Calm-now = record { at = λ h. ok-panicked _ }

  pub Calm-sql_open : (c : String) → IsCalm env → Calm (Action.sql_open c)
  unfolding Action.sql_open
  Calm-sql_open c k = record { at = λ h. k.on_sql_open h c }

  pub Calm-sql_ping : (c : String) → IsCalm env → Calm (Action.sql_ping c)
  unfolding Action.sql_ping
  Calm-sql_ping c k = record { at = λ h. k.on_sql_ping h c }

  pub Calm-sql_close : (c : String) → Calm (Action.sql_close c)
  unfolding Action.sql_close
  Calm-sql_close c = record { at = λ h. ok-panicked _ }

  pub Calm-sql_exec :
      (c q : String) (args : List String) → IsCalm env → Calm (Action.sql_exec c q args)
  unfolding Action.sql_exec
  Calm-sql_exec c q args k = record { at = λ h. k.on_sql_exec h c q args }

  pub Calm-query_bool :
      (c q : String) (args : List String) → IsCalm env → Calm (Action.query_bool c q args)
  unfolding Action.query_bool
  Calm-query_bool c q args k = record { at = λ h. k.on_query_bool h c q args }

  pub Calm-query_text :
      (c q : String) (args : List String) → IsCalm env → Calm (Action.query_text c q args)
  unfolding Action.query_text
  Calm-query_text c q args k = record { at = λ h. k.on_query_text h c q args }

pub ruleset calm_rules = (
  Calm-pure, Calm-raise, Calm-deref, Calm-if, Calm-when, Calm-option, Calm-handle, Calm-bind,
  Calm-finally, Calm-get, Calm-create, Calm-reference, Calm-now, Calm-sql_open, Calm-sql_ping,
  Calm-sql_close, Calm-sql_exec, Calm-query_bool, Calm-query_text,
)
