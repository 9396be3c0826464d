-- ===== src/Kube/Returns.antt =====
-- What is known of the value that an action returns, by the way it is built.
use postgres_cluster_operato.Common.{arith, ◌≡◌, refl, Bool, if◌then◌else◌, true, false}
use postgres_cluster_operato.Kube.Emits.{Returns}
use postgres_cluster_operato.Kube.Env.{Error, Result, History, ok, err, panicked}
use postgres_cluster_operato.Kube.Action

module _ {B : Type 0} {Q : B → Type 0} where
  pub Returns-pure : (b : B) → Q b → Returns Q (Action.pure b)
  unfolding Action.pure
  Returns-pure b q = record { at = λ h b' e. ground arith }

  pub Returns-raise : (e : Error) → Returns Q (Action.raise e)
  unfolding Action.raise
  Returns-raise e = record { at = λ h b e'. ground arith }

  pub Returns-lift : (r : Result B) → ((b : B) → r ≡ ok b → Q b) → Returns Q (Action.lift r)
  unfolding Action.lift
  Returns-lift r f = record { at = λ h b e. f b e }

module _ {A B : Type 0} {Q : B → Type 0} where
  handle_at :
      (r : Result A) (failed : Error → Action.Action B) (done : A → Action.Action B)
      → ((e : Error) → Returns Q (failed e))
      → ((a : A) → Returns Q (done a))
      → (h : History) (b : B) → (Action.handle (Action.lift r) failed done h).0 ≡ ok b
      → Q b
  unfolding Action.handle Action.lift
  handle_at (ok a) failed done ef ed h b e = (ed a).at h b e
  handle_at (err x) failed done ef ed h b e = (ef x).at h b e
  handle_at panicked failed done ef ed h b e = ground arith

  handle_when_at :
      (P : A → Type 0) (r : Result A) (failed : Error → Action.Action B)
      (done : A → Action.Action B)
      → ((a : A) → r ≡ ok a → P a)
      → ((e : Error) → Returns Q (failed e))
      → ((a : A) → P a → Returns Q (done a))
      → (h : History) (b : B) → (Action.handle (Action.lift r) failed done h).0 ≡ ok b
      → Q b
  unfolding Action.handle Action.lift
  handle_when_at P (ok a) failed done p ef ed h b e = (ed a (p a refl)).at h b e
  handle_when_at P (err x) failed done p ef ed h b e = (ef x).at h b e
  handle_when_at P panicked failed done p ef ed h b e = ground arith

  pub Returns-handle_when :
      (P : A → Type 0) (m : Action.Action A) (failed : Error → Action.Action B)
      (done : A → Action.Action B)
      → Returns P m
      → ((e : Error) → Returns Q (failed e))
      → ((a : A) → P a → Returns Q (done a))
      → Returns Q (Action.handle m failed done)
  unfolding Action.handle Action.lift
  Returns-handle_when P m failed done p ef ed = record {
    at = λ h b e. handle_when_at P (m h).0 failed done (p.at h) ef ed (m h).1 b e;
  }

  pub Returns-handle :
      (m : Action.Action A) (failed : Error → Action.Action B) (done : A → Action.Action B)
      → ((e : Error) → Returns Q (failed e))
      → ((a : A) → Returns Q (done a))
      → Returns Q (Action.handle m failed done)
  unfolding Action.handle Action.lift
  Returns-handle m failed done ef ed = record {
    at = λ h b e. handle_at (m h).0 failed done ef ed (m h).1 b e;
  }

  bind_at :
      (P : A → Type 0) (r : Result A) (f : A → Action.Action B)
      → ((a : A) → r ≡ ok a → P a)
      → ((a : A) → P a → Returns Q (f a))
      → (h : History) (b : B) → (Action.◌>>=◌ (Action.lift r) f h).0 ≡ ok b
      → Q b
  unfolding Action.◌>>=◌ Action.lift
  bind_at P (ok a) f p ef h b e = (ef a (p a refl)).at h b e
  bind_at P (err x) f p ef h b e = ground arith
  bind_at P panicked f p ef h b e = ground arith

  -- The rest may use what is known of the first value.
  pub Returns-bind_when :
      (P : A → Type 0) (m : Action.Action A) (f : A → Action.Action B)
      → Returns P m
      → ((a : A) → P a → Returns Q (f a))
      → Returns Q (Action.◌>>=◌ m f)
  unfolding Action.◌>>=◌ Action.lift
  Returns-bind_when P m f p ef = record {
    at = λ h b e. bind_at P (m h).0 f (p.at h) ef (m h).1 b e;
  }

  pub Returns-bind :
      (m : Action.Action A) (f : A → Action.Action B)
      → ((a : A) → Returns Q (f a))
      → Returns Q (Action.◌>>=◌ m f)
  unfolding Action.◌>>=◌ Action.lift
  Returns-bind m f ef = record {
    at = λ h b e. bind_at (λ _. Action.⊤) (m h).0 f (λ _ _. tt) (λ a _. ef a) (m h).1 b e;
  }

module _ {B : Type 0} {Q : B → Type 0} where
  pub Returns-finally :
      (m : Action.Action B) (c : Action.Action Action.⊤)
      → Returns Q m
      → Returns Q (Action.finally m c)
  unfolding Action.finally
  Returns-finally m c r = record { at = λ h b e. r.at h b e }

  pub Returns-weaken :
      (P : B → Type 0) (m : Action.Action B) → ((b : B) → P b → Q b) → Returns P m → Returns Q m
  Returns-weaken P m f r = record { at = λ h b e. f b (r.at h b e) }

  pub Returns-if :
      (b : Bool) (m n : Action.Action B)
      → Returns Q m
      → Returns Q n
      → Returns Q (if b then m else n)
  Returns-if true m n rm rn = rm
  Returns-if false m n rm rn = rn

  pub Returns-if_when :
      (b : Bool) (m n : Action.Action B)
      → (b ≡ true → Returns Q m)
      → (b ≡ false → Returns Q n)
      → Returns Q (if b then m else n)
  Returns-if_when true m n rm rn = rm refl
  Returns-if_when false m n rm rn = rn refl
