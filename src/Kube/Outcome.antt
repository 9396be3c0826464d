-- ===== src/Kube/Outcome.antt =====
-- What is known of a result: a property of the value, or of the failure.
-- A panic has no such account, so an `Outcome` also says that there is none.
use postgres_cluster_operato.Kube.Action
use postgres_cluster_operato.Kube.Env.{Result, ok, err, panicked, History}

module _ {A : Type 0} where
  abbrev pub Outcome : (A → Type 0) → Type 0 → Result A → Type 0
  Outcome P Q (ok a) = P a
  Outcome P Q (err e) = Q
  Outcome P Q panicked = ⊥

module _ {A B : Type 0} where
  bind_at :
      (P : A → Type 0) (R : B → Type 0) (Q : Type 0) (r : Result A) (f : A → Action.Action B)
      (h : History)
      → Outcome P Q r
      → ((a : A) → P a → Outcome R Q (f a h).0)
      → Outcome R Q (Action.◌>>=◌ (Action.lift r) f h).0
  unfolding Action.◌>>=◌ Action.lift
  bind_at P R Q (ok a) f h o k = k a o
  bind_at P R Q (err e) f h o k = o
  bind_at P R Q panicked f h o k = o

  -- The outcome of a chain of two steps.
  pub Outcome-bind :
      (P : A → Type 0) (R : B → Type 0) (Q : Type 0) (m : Action.Action A) (f : A → Action.Action B)
      (h : History)
      → Outcome P Q (m h).0
      → ((a : A) (h' : History) → P a → Outcome R Q (f a h').0)
      → Outcome R Q (Action.◌>>=◌ m f h).0
  unfolding Action.◌>>=◌ Action.lift
  Outcome-bind P R Q m f h o k = bind_at P R Q (m h).0 f (m h).1 o (λ a. k a (m h).1)

module _ {A : Type 0} where
  pub Outcome-weaken :
      (P R : A → Type 0) (Q : Type 0) (r : Result A)
      → ((a : A) → P a → R a)
      → Outcome P Q r
      → Outcome R Q r
  Outcome-weaken P R Q (ok a) f o = f a o
  Outcome-weaken P R Q (err e) f o = o
  Outcome-weaken P R Q panicked f o = o
