-- ===== src/Kube/Clearing.antt =====
-- Deletions that come before something else: the rest runs once every object is gone.
use mathlib.Core.Bool.{true≢false}
use mathlib.Core.Path.{subst⁻¹, subst}
use postgres_cluster_operato.Api.Meta.{NamespacedName}
use postgres_cluster_operato.Common.{
  List, ◌⊎◌, ◌≡◌, [], ◌∷◌, true, inl, inr, refl, sym, ◌∙◌, Bool, if◌then◌else◌, false, String,
}
use postgres_cluster_operato.Kube.Env.{Env, Result, Kind, History, ok, Call, err, panicked, Error}
use postgres_cluster_operato.Kube.Action

abbrev pub Target : Type 0
Target = Kind × NamespacedName

-- The answer that lets the operator go on.
abbrev pub IsGone : Result (Unit {0}) → Type 0
IsGone (ok _) = Unit
IsGone (err e) = e.not_found ≡ true
IsGone panicked = ⊥

abbrev pub IsFailure {ℓ} : {A : Type ℓ} → Result A → Type 0
IsFailure (ok _) = ⊥
IsFailure (err e) = Unit
IsFailure panicked = Unit

module _ (env : Env) where
  -- The targets are deleted one after the other, and each of them is gone.
  pub data Deletes : List Target → History → History → Type 0 where
    done : (h : History) → Deletes [] h h
    next :
        (k : Kind) (key : NamespacedName) {ts : List Target} {h h' : History}
        → IsGone (env.on_delete h k key)
        → Deletes ts (Call.delete k key ∷ h) h'
        → Deletes ((k, key) ∷ ts) h h'

  -- The deletions up to the first that fails.
  pub data Stops : List Target → History → History → Type 0 where
    here :
        (k : Kind) (key : NamespacedName) (ts : List Target) (h : History)
        → ¬ (IsGone (env.on_delete h k key))
        → Stops ((k, key) ∷ ts) h (Call.delete k key ∷ h)
    there :
        (k : Kind) (key : NamespacedName) {ts : List Target} {h h' : History}
        → IsGone (env.on_delete h k key)
        → Stops ts (Call.delete k key ∷ h) h'
        → Stops ((k, key) ∷ ts) h h'

  -- Either all the targets are gone and the rest did what `R` says, or a deletion failed, nothing
  -- else was called, and the whole fails.
  abbrev pub Clears :
      {A : Type 0}
      → (History → Result A × History → Type 0)
      → List Target
      → History
      → Result A × History
      → Type 0
  Clears R ts h out =
      ((h' : History) × Deletes ts h h' × R h' out) ⊎ (Stops ts h out.1 × IsFailure out.0)

module _ ⦃env : Env⦄ {A : Type 0} (R : History → Result A × History → Type 0) where
  Clears-step :
      (k : Kind) (key : NamespacedName) (ts : List Target) (h : History) (out : Result A × History)
      → IsGone (env.on_delete h k key)
      → Clears env R ts (Call.delete k key ∷ h) out
      → Clears env R ((k, key) ∷ ts) h out
  Clears-step k key ts h out g (inl (h', d, r)) = inl (h', next k key g d, r)
  Clears-step k key ts h out g (inr (s, f)) = inr (there k key g s, f)

  failed_with :
      (k : Kind) (key : NamespacedName) (ts : List Target) (n : Action.Action A) (h : History)
      (x : Error) (missing : Bool)
      → x.not_found ≡ missing
      → env.on_delete h k key ≡ err x
      → Clears env R ts (Call.delete k key ∷ h) (n (Call.delete k key ∷ h))
      → Clears env R ((k, key) ∷ ts) h (
          Action.◌>>=◌
            (if missing then Action.pure {A = Action.⊤} tt else Action.raise x)
            (λ _. n)
            (Call.delete k key ∷ h))
  unfolding Action.◌>>=◌ Action.pure Action.raise
  failed_with k key ts n h x true g e c = Clears-step k key ts h _ (subst⁻¹ IsGone e g) c
  failed_with k key ts n h x false g e c =
      inr (here k key ts h (λ w. true≢false (sym (subst IsGone e w) ∙ g)), tt)

  answered :
      (k : Kind) (key : NamespacedName) (ts : List Target) (n : Action.Action A) (h : History)
      (answer : Result (Unit {0}))
      → env.on_delete h k key ≡ answer
      → Clears env R ts (Call.delete k key ∷ h) (n (Call.delete k key ∷ h))
      → Clears env R ((k, key) ∷ ts) h (
          Action.◌>>=◌
            (Action.ignore_not_found (Action.lift answer))
            (λ _. n)
            (Call.delete k key ∷ h))
  unfolding Action.◌>>=◌ Action.handle Action.lift Action.pure Action.raise
  answered k key ts n h (ok _) e c = Clears-step k key ts h _ (subst⁻¹ IsGone e tt) c
  answered k key ts n h (err x) e c = failed_with k key ts n h x _ refl e c
  answered k key ts n h panicked e c = inr (here k key ts h (λ w. subst IsGone e w), tt)

  -- A deletion whose object may be missing, and then `n`.
  pub after_delete :
      (k : Kind) (key : NamespacedName) (ts : List Target) (n : Action.Action A) (h : History)
      → Clears env R ts (Call.delete k key ∷ h) (n (Call.delete k key ∷ h))
      → Clears env R
          ((k, key) ∷ ts)
          h
          (Action.◌>>=◌ (Action.ignore_not_found (Action.delete k key)) (λ _. n) h)
  unfolding Action.◌>>=◌ Action.handle Action.lift Action.delete
  after_delete k key ts n h c = answered k key ts n h (env.on_delete h k key) refl c

bind_assoc_at :
    {A B C : Type 0} (r : Result A) (f : A → Action.Action B) (g : B → Action.Action C)
    (h : History)
    → Action.◌>>=◌ (Action.◌>>=◌ (Action.lift r) f) g h
      ≡ Action.◌>>=◌ (Action.lift r) (λ a. Action.◌>>=◌ (f a) g) h
unfolding Action.◌>>=◌ Action.lift
bind_assoc_at (ok a) f g h = refl
bind_assoc_at (err e) f g h = refl
bind_assoc_at panicked f g h = refl

-- A chain of steps may be read from the right.
pub bind_assoc :
    {A B C : Type 0} (m : Action.Action A) (f : A → Action.Action B) (g : B → Action.Action C)
    (h : History)
    → Action.◌>>=◌ (Action.◌>>=◌ m f) g h ≡ Action.◌>>=◌ m (λ a. Action.◌>>=◌ (f a) g) h
unfolding Action.◌>>=◌ Action.lift
bind_assoc m f g h = bind_assoc_at (m h).0 f g (m h).1

last_call_at :
    {A B : Type 0} (r : Result A) (b : B) (h : History)
    → (Action.◌>>=◌ (Action.lift r) (λ _. Action.pure b) h).1 ≡ h
unfolding Action.◌>>=◌ Action.lift Action.pure
last_call_at (ok a) b h = refl
last_call_at (err e) b h = refl
last_call_at panicked b h = refl

-- What follows the last call only makes a value.
pub last_call :
    {A B : Type 0} (m : Action.Action A) (b : B) (h : History)
    → (Action.◌>>=◌ m (λ _. Action.pure b) h).1 ≡ (m h).1
unfolding Action.◌>>=◌ Action.lift
last_call m b h = last_call_at (m h).0 b (m h).1

within_call_at :
    {A : Type 0} (context : String) (r : Result A) (h : History)
    → (Action.within context (Action.lift r) h).1 ≡ h
unfolding Action.handle Action.lift Action.pure Action.raise
within_call_at context (ok a) h = refl
within_call_at context (err e) h = refl
within_call_at context panicked h = refl

-- The wrapping of an error makes no call.
pub within_call :
    {A : Type 0} (context : String) (m : Action.Action A) (h : History)
    → (Action.within context m h).1 ≡ (m h).1
unfolding Action.handle Action.lift
within_call context m h = within_call_at context (m h).0 (m h).1
