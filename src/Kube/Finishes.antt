-- ===== src/Kube/Finishes.antt =====
-- How a run ends: its result, whichever it is, and the history that it leaves.
use postgres_cluster_operato.Kube.Clearing.{IsFailure}
use postgres_cluster_operato.Api.Meta.{NamespacedName}
use postgres_cluster_operato.Common.{[], ◌∷◌, String, ◌≡◌, refl}
use postgres_cluster_operato.Kube.Env.{History, Result, ok, Error, err, panicked, Call, Env, Kind}
use postgres_cluster_operato.Kube.Action

pub record Finishes {A : Type 0} (Q : Result A → History → Type 0) (h : History)
    (m : Action.Action A) : Type 0 where
  pub at : Q (m h).0 (m h).1

module _ {A B : Type 0} where
  handle_at :
      (P : Result A → History → Type 0) (Q : Result B → History → Type 0) (r : Result A)
      (failed : Error → Action.Action B) (done : A → Action.Action B) (h : History)
      → P r h
      → ((e : Error) (h' : History) → P (err e) h' → Finishes Q h' (failed e))
      → ((a : A) (h' : History) → P (ok a) h' → Finishes Q h' (done a))
      → ((h' : History) → P panicked h' → Q panicked h')
      → Q
          (Action.handle (Action.lift r) failed done h).0
          (Action.handle (Action.lift r) failed done h).1
  unfolding Action.handle Action.lift
  handle_at P Q (ok a) failed done h p f d k = (d a h p).at
  handle_at P Q (err e) failed done h p f d k = (f e h p).at
  handle_at P Q panicked failed done h p f d k = k h p

  pub Finishes-handle :
      (P : Result A → History → Type 0) {Q : Result B → History → Type 0} (m : Action.Action A)
      (failed : Error → Action.Action B) (done : A → Action.Action B) (h : History)
      → Finishes P h m
      → ((e : Error) (h' : History) → P (err e) h' → Finishes Q h' (failed e))
      → ((a : A) (h' : History) → P (ok a) h' → Finishes Q h' (done a))
      → ((h' : History) → P panicked h' → Q panicked h')
      → Finishes Q h (Action.handle m failed done)
  unfolding Action.handle Action.lift
  Finishes-handle P {Q} m failed done h p f d k = record {
    at = handle_at P Q (m h).0 failed done (m h).1 p.at f d k;
  }

  bind_at :
      (P : Result A → History → Type 0) (Q : Result B → History → Type 0) (r : Result A)
      (next : A → Action.Action B) (h : History)
      → P r h
      → ((a : A) (h' : History) → P (ok a) h' → Finishes Q h' (next a))
      → ((e : Error) (h' : History) → P (err e) h' → Q (err e) h')
      → ((h' : History) → P panicked h' → Q panicked h')
      → Q (Action.◌>>=◌ (Action.lift r) next h).0 (Action.◌>>=◌ (Action.lift r) next h).1
  unfolding Action.◌>>=◌ Action.lift
  bind_at P Q (ok a) next h p d f k = (d a h p).at
  bind_at P Q (err e) next h p d f k = f e h p
  bind_at P Q panicked next h p d f k = k h p

  pub Finishes-bind :
      (P : Result A → History → Type 0) {Q : Result B → History → Type 0} (m : Action.Action A)
      (next : A → Action.Action B) (h : History)
      → Finishes P h m
      → ((a : A) (h' : History) → P (ok a) h' → Finishes Q h' (next a))
      → ((e : Error) (h' : History) → P (err e) h' → Q (err e) h')
      → ((h' : History) → P panicked h' → Q panicked h')
      → Finishes Q h (Action.◌>>=◌ m next)
  unfolding Action.◌>>=◌ Action.lift
  Finishes-bind P {Q} m next h p d f k = record { at = bind_at P Q (m h).0 next (m h).1 p.at d f k }

module _ {A : Type 0} {Q : Result A → History → Type 0} {h : History} where
  pub Finishes-pure : (a : A) → Q (ok a) h → Finishes Q h (Action.pure a)
  unfolding Action.pure
  Finishes-pure a q = record { at = q }

  pub Finishes-raise : (e : Error) → Q (err e) h → Finishes Q h (Action.raise e)
  unfolding Action.raise
  Finishes-raise e q = record { at = q }

-- Nothing is said.
pub Finishes-any : {A : Type 0} (m : Action.Action A) (h : History) → Finishes (λ r h'. Unit) h m
Finishes-any m h = record { at = tt }

-- The last call satisfies `P`.
abbrev pub LastCall : (Call → Type 0) → History → Type 0
LastCall P [] = ⊥
LastCall P (c ∷ h) = P c

-- A step that does nothing but give a result, with its error wrapped or not.
abbrev pub Gives : {A : Type 0} → Result A → Result A → Type 0
Gives r (ok a) = r ≡ ok a
Gives r (err e) = IsFailure r
Gives r panicked = Unit

given_at : {A : Type 0} (r : Result A) → Gives r r
given_at (ok a) = refl
given_at (err e) = tt
given_at panicked = tt

pub lift-Gives :
    {A : Type 0} (r : Result A) (h : History) → Finishes (λ x h'. Gives r x) h (Action.lift r)
unfolding Action.lift
lift-Gives r h = record { at = given_at r }

pub within-Gives :
    {A : Type 0} (context : String) (r : Result A) (h : History)
    → Finishes (λ x h'. Gives r x) h (Action.within context (Action.lift r))
within-Gives context r h =
    Finishes-handle (λ x h'. Gives r x) _ _ _ h (lift-Gives r h) (λ e h' p. Finishes-raise _ p)
      (λ a h' p. Finishes-pure _ p) (λ h' p. tt)

module _ ⦃env : Env⦄ where
  -- The answer to a get, and the history after it.
  pub get-Finishes :
      (k : Kind) (key : NamespacedName) (h : History)
      → Finishes (λ r h'. (env.on_get h k key ≡ r) × (h' ≡ Call.get k key ∷ h)) h (Action.get k key)
  unfolding Action.get
  get-Finishes k key h = record { at = (refl, refl) }
