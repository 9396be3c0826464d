-- ===== src/Kube/Steady.antt =====
-- Steps that never end in an error: they return a value or panic.
use postgres_cluster_operato.Kube.Finishes.{Finishes, Finishes-bind}
use postgres_cluster_operato.Kube.Emits.{Returns}
use postgres_cluster_operato.Kube.Env.{Result, Error, History, Env, ok, err, panicked}
use postgres_cluster_operato.Common.{
  Bool, Option, ◌≡◌, some, if◌then◌else◌, none, true, false, refl,
}
use postgres_cluster_operato.Kube.Action

abbrev pub NotErr {ℓ} : {A : Type ℓ} → Result A → Type 0
NotErr (ok a) = Unit
NotErr (err e) = ⊥
NotErr panicked = Unit

pub record Steady {A : Type 0} (m : Action.Action A) : Type 0 where
  pub at : (h : History) → NotErr (m h).0

module _ {A : Type 0} where
  pub Steady-pure : (a : A) → Steady (Action.pure a)
  unfolding Action.pure
  Steady-pure a = record { at = λ h. tt }

  deref_at : (o : Option A) (h : History) → NotErr (Action.deref o h).0
  unfolding Action.deref
  deref_at none h = tt
  deref_at (some a) h = tt

  pub Steady-deref : (o : Option A) → Steady (Action.deref o)
  Steady-deref o = record { at = deref_at o }

  pub Steady-if :
      (b : Bool) (m n : Action.Action A) → Steady m → Steady n → Steady (if b then m else n)
  Steady-if true m n s t = s
  Steady-if false m n s t = t

module _ {A B : Type 0} where
  pub Steady-option :
      (o : Option A) (m : Action.Action B) (f : A → Action.Action B)
      → Steady m
      → ((a : A) → Steady (f a))
      → Steady (Action.option o m f)
  unfolding Action.option
  Steady-option none m f s t = s
  Steady-option (some a) m f s t = t a

  handle_at :
      (r : Result A) (failed : Error → Action.Action B) (done : A → Action.Action B) (h : History)
      → ((e : Error) → Steady (failed e))
      → ((a : A) → Steady (done a))
      → NotErr (Action.handle (Action.lift r) failed done h).0
  unfolding Action.handle Action.lift
  handle_at (ok a) failed done h f d = (d a).at h
  handle_at (err e) failed done h f d = (f e).at h
  handle_at panicked failed done h f d = tt

  -- The error of the first step is dealt with.
  pub Steady-handle :
      (m : Action.Action A) (failed : Error → Action.Action B) (done : A → Action.Action B)
      → ((e : Error) → Steady (failed e))
      → ((a : A) → Steady (done a))
      → Steady (Action.handle m failed done)
  unfolding Action.handle Action.lift
  Steady-handle m failed done f d = record { at = λ h. handle_at (m h).0 failed done (m h).1 f d }

  bind_at :
      (r : Result A) (next : A → Action.Action B) (h : History)
      → NotErr r
      → ((a : A) → Steady (next a))
      → NotErr (Action.◌>>=◌ (Action.lift r) next h).0
  unfolding Action.◌>>=◌ Action.lift
  bind_at (ok a) next h s d = (d a).at h
  bind_at (err e) next h s d = s
  bind_at panicked next h s d = tt

  pub Steady-bind :
      (m : Action.Action A) (next : A → Action.Action B)
      → Steady m
      → ((a : A) → Steady (next a))
      → Steady (Action.◌>>=◌ m next)
  unfolding Action.◌>>=◌ Action.lift
  Steady-bind m next s d = record { at = λ h. bind_at (m h).0 next (m h).1 (s.at h) d }

module _ {A : Type 0} where
  pub Steady-finally :
      (m : Action.Action A) (c : Action.Action Action.⊤) → Steady m → Steady (Action.finally m c)
  unfolding Action.finally
  Steady-finally m c s = record { at = λ h. s.at h }

module _ ⦃env : Env⦄ where
  pub Steady-now : Steady Action.now
  unfolding Action.now
  Steady-now = record { at = λ h. tt }

pub ruleset steady_rules =
    (Steady-pure, Steady-deref, Steady-if, Steady-option, Steady-handle, Steady-bind, Steady-now)

-- What holds of the value, where there is one.
abbrev pub OnlyOk {ℓ} : {A : Type ℓ} → (A → History → Type 0) → Result A → History → Type 0
OnlyOk Q (ok a) h = Q a h
OnlyOk Q (err e) h = ⊥
OnlyOk Q panicked h = Unit

module _ {A : Type 0} where
  returned :
      (Q : A → History → Type 0) (r : Result A) (h : History)
      → NotErr r
      → ((a : A) → r ≡ ok a → Q a h)
      → OnlyOk Q r h
  returned Q (ok a) h s q = q a refl
  returned Q (err e) h s q = s
  returned Q panicked h s q = tt

  pub Finishes-Steady :
      (Q : A → Type 0) (m : Action.Action A) (h : History)
      → Steady m
      → Returns Q m
      → Finishes (OnlyOk (λ a h'. Q a)) h m
  Finishes-Steady Q m h s r = record {
    at = returned (λ a h'. Q a) (m h).0 (m h).1 (s.at h) (r.at h);
  }

-- What follows a step that never fails.
pub Finishes-after :
    {A B : Type 0} {Q : Result B → History → Type 0} (m : Action.Action A)
    (next : A → Action.Action B) (h : History)
    → Steady m
    → ((a : A) (h' : History) → Finishes Q h' (next a))
    → ((h' : History) → Q panicked h')
    → Finishes Q h (Action.◌>>=◌ m next)
Finishes-after m next h s f k =
    Finishes-bind (OnlyOk (λ a h'. Unit)) m next h
      (Finishes-Steady (λ a. Unit) m h s (record { at = λ h' a e. tt })) (λ a h' u. f a h')
      (λ e h' p. elim p [ ]) (λ h' p. k h')
