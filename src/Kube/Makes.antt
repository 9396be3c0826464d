-- ===== src/Kube/Makes.antt =====
-- Actions that make a certain call, whatever the world answers.
use postgres_cluster_operato.Kube.Emits.{Emits, Extends, Extends-trans, more, same}
use postgres_cluster_operato.Kube.Calm.{Calm}
use postgres_cluster_operato.Common.{Bool, ◌≢◌, if◌then◌else◌, ◌∷◌, true, false, arith}
use postgres_cluster_operato.Kube.Env.{
  Env, Call, Kind, Result, Error, History, Obj, panicked, ok, as_object, err,
}
use postgres_cluster_operato.Kube.Action

-- Any call at all.
abbrev pub Any : Call → Type 0
Any _ = Unit

-- The call is one of those made since the first history.
pub data Since (c : Call) (h : History) : History → Type 0 where
  just : {h' : History} → Extends Any h h' → Since c h (c ∷ h')
  later : {h' : History} (d : Call) → Since c h h' → Since c h (d ∷ h')

pub record Makes {A : Type 0} (c : Call) (m : Action.Action A) : Type 0 where
  pub at : (h : History) → Since c h (m h).1

module _ {c : Call} where
  Since-before : {h h' h'' : History} → Extends Any h h' → Since c h' h'' → Since c h h''
  Since-before e (just e') = just (Extends-trans e e')
  Since-before e (later d s) = later d (Since-before e s)

  Since-after : {h h' h'' : History} → Since c h h' → Extends Any h' h'' → Since c h h''
  Since-after s same = s
  Since-after s (more d p e) = later d (Since-after s e)

  pub Makes-if :
      {A : Type 0} (b : Bool) (m n : Action.Action A)
      → Makes c m
      → Makes c n
      → Makes c (if b then m else n)
  Makes-if true m n k l = k
  Makes-if false m n k l = l

  pub Makes-finally :
      {A : Type 0} (m : Action.Action A) (d : Action.Action Action.⊤)
      → Makes c m
      → Emits Any d
      → Makes c (Action.finally m d)
  unfolding Action.finally
  Makes-finally m d k e = record { at = λ h. Since-after (k.at h) (e.at (m h).1) }

module _ {A B : Type 0} where
  first_at :
      (r : Result A) (f : A → Action.Action B)
      → ((a : A) → Emits Any (f a))
      → (h : History) → Extends Any h (Action.◌>>=◌ (Action.lift r) f h).1
  unfolding Action.◌>>=◌ Action.lift
  first_at (ok a) f e h = (e a).at h
  first_at (err x) f e h = same
  first_at panicked f e h = same

module _ {c : Call} {A B : Type 0} where
  handle_at :
      (r : Result A) (failed : Error → Action.Action B) (done : A → Action.Action B)
      → r ≢ panicked
      → ((e : Error) → Makes c (failed e))
      → ((a : A) → Makes c (done a))
      → (h : History) → Since c h (Action.handle (Action.lift r) failed done h).1
  unfolding Action.handle Action.lift
  handle_at (ok a) failed done n kf kd h = (kd a).at h
  handle_at (err e) failed done n kf kd h = (kf e).at h
  handle_at panicked failed done n kf kd h = ground arith

  -- The call comes after an action that does not panic, whether that fails or not.
  pub Makes-handle :
      (m : Action.Action A) (failed : Error → Action.Action B) (done : A → Action.Action B)
      → Calm m
      → Emits Any m
      → ((e : Error) → Makes c (failed e))
      → ((a : A) → Makes c (done a))
      → Makes c (Action.handle m failed done)
  unfolding Action.handle Action.lift
  Makes-handle m failed done k e kf kd = record {
    at = λ h. Since-before (e.at h) (handle_at (m h).0 failed done (k.at h) kf kd (m h).1);
  }

  -- The call comes first.
  pub Makes-first :
      (m : Action.Action A) (f : A → Action.Action B)
      → Makes c m
      → ((a : A) → Emits Any (f a))
      → Makes c (Action.◌>>=◌ m f)
  unfolding Action.◌>>=◌ Action.lift
  Makes-first m f k e = record { at = λ h. Since-after (k.at h) (first_at (m h).0 f e (m h).1) }

module _ {c : Call} {B : Type 0} where
  tried_at :
      (r : Result (Unit {0})) (n : Action.Action B)
      → r ≢ panicked
      → Makes c n
      → (h : History)
      → Since c h
          (Action.◌>>=◌
            (Action.handle (Action.lift r) (λ _. Action.pure {A = Action.⊤} tt) Action.pure)
            (λ _. n)
            h).1
  unfolding Action.◌>>=◌ Action.handle Action.lift Action.pure
  tried_at (ok _) n q k h = k.at h
  tried_at (err e) n q k h = k.at h
  tried_at panicked n q k h = ground arith

  -- The call comes after an action whose error is only logged.
  pub Makes-tried :
      (m : Action.Action Action.⊤) (n : Action.Action B)
      → Calm m
      → Emits Any m
      → Makes c n
      → Makes c
          (Action.◌>>=◌ (Action.handle m (λ _. Action.pure {A = Action.⊤} tt) Action.pure) (λ _. n))
  unfolding Action.◌>>=◌ Action.handle Action.lift Action.pure
  Makes-tried m n q e k = record {
    at = λ h. Since-before (e.at h) (tried_at (m h).0 n (q.at h) k (m h).1);
  }

module _ ⦃env : Env⦄ where
  pub Makes-update :
      (k : Kind) (o : Obj k) → Makes (Call.update (as_object k o)) (Action.update k o)
  unfolding Action.update
  Makes-update k o = record { at = λ h. just same }
