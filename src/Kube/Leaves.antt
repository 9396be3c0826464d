-- ===== src/Kube/Leaves.antt =====
-- What an action that returns leaves behind: its value and the history together.
use postgres_cluster_operato.Kube.Outcome.{Outcome}
use mathlib.Core.Path.{subst}
use postgres_cluster_operato.Common.{◌≡◌, String, arith, refl}
use postgres_cluster_operato.Kube.Env.{History, Result, ok, err, panicked}
use postgres_cluster_operato.Kube.Action

-- Where `m` run on `h` returns a value, the value and the history that it leaves satisfy `Q`.
pub record Leaves {A : Type 0} (Q : A → History → Type 0) (h : History) (m : Action.Action A)
    : Type 0 where
  pub at : (a : A) → (m h).0 ≡ ok a → Q a (m h).1

module _ {B : Type 0} {Q : B → History → Type 0} {h : History} where
  pub Leaves-pure : (b : B) → Q b h → Leaves Q h (Action.pure b)
  unfolding Action.pure
  Leaves-pure b q = record { at = λ a e. subst (Outcome (λ x. Q x h) Action.⊤) e q }

  pub Leaves-lift : (r : Result B) → ((b : B) → r ≡ ok b → Q b h) → Leaves Q h (Action.lift r)
  unfolding Action.lift
  Leaves-lift r f = record { at = f }

module _ {A B : Type 0} {P : A → History → Type 0} {Q : B → History → Type 0} where
  bind_at :
      (r : Result A) (f : A → Action.Action B) (h : History) (b : B)
      → ((a : A) → r ≡ ok a → P a h)
      → ((a : A) (h' : History) → P a h' → Leaves Q h' (f a))
      → (Action.◌>>=◌ (Action.lift r) f h).0 ≡ ok b
      → Q b (Action.◌>>=◌ (Action.lift r) f h).1
  unfolding Action.◌>>=◌ Action.lift
  bind_at (ok a) f h b p k e = (k a h (p a refl)).at b e
  bind_at (err x) f h b p k e = ground arith
  bind_at panicked f h b p k e = ground arith

  pub Leaves-bind :
      (m : Action.Action A) (f : A → Action.Action B) (h : History)
      → Leaves P h m
      → ((a : A) (h' : History) → P a h' → Leaves Q h' (f a))
      → Leaves Q h (Action.◌>>=◌ m f)
  unfolding Action.◌>>=◌ Action.lift
  Leaves-bind m f h l k = record { at = λ b e. bind_at (m h).0 f (m h).1 b l.at k e }

module _ {A : Type 0} where
  within_at :
      (P : A → History → Type 0) (r : Result A) (context : String) (h : History) (a : A)
      → ((a : A) → r ≡ ok a → P a h)
      → (Action.within context (Action.lift r) h).0 ≡ ok a
      → P a (Action.within context (Action.lift r) h).1
  unfolding Action.steps
  within_at P (ok x) context h a p e = subst (Outcome (λ y. P y h) Action.⊤) e (p x refl)
  within_at P (err x) context h a p e = ground arith
  within_at P panicked context h a p e = ground arith

  pub Leaves-within :
      (P : A → History → Type 0) (context : String) (m : Action.Action A) (h : History)
      → Leaves P h m
      → Leaves P h (Action.within context m)
  unfolding Action.steps
  Leaves-within P context m h l = record {
    at = λ a e. within_at P (m h).0 context (m h).1 a l.at e;
  }
