-- ===== src/Kube/Faults.antt =====
-- Why a run that has made no write of its own ends in a failure.
use mathlib.Core.Path.{subst⁻¹}
use postgres_cluster_operato.Kube.Pods.{Quantity}
use postgres_cluster_operato.Kube.Clearing.{IsFailure}
use postgres_cluster_operato.Api.Meta.{ObjectMeta, NamespacedName}
use postgres_cluster_operato.Common.{ℕ, ◌≤◌, String, ◌≡◌, false, ◌∷◌, refl}
use postgres_cluster_operato.Kube.Env.{
  Result, Env, Kind, ok, err, panicked, Obj, History, metadata_of, Call,
}
use postgres_cluster_operato.Kube.Action

-- An answer that is neither an object nor that there is none.
abbrev pub IsUnanswered {ℓ} : {A : Type ℓ} → Result A → Type 0
IsUnanswered (ok a) = ⊥
IsUnanswered (err e) = e.not_found ≡ false
IsUnanswered panicked = Unit

-- An answer of the source of randomness that is no number below the bound.
abbrev pub IsUndrawn : ℕ → Result ℕ → Type 0
IsUndrawn n (ok v) = n ≤ v
IsUndrawn n (err e) = Unit
IsUndrawn n panicked = Unit

module _ (env : Env) (owner_kind : Kind) (owner : ObjectMeta) where
  -- The lookup or the draw that was made last has no usable answer, an object cannot be given the
  -- owner, or a quantity cannot be parsed.
  pub data Fault : History → Type 0 where
    unread :
        (k : Kind) (key : NamespacedName) (h : History)
        → IsUnanswered (env.on_get h k key)
        → Fault (Call.get k key ∷ h)
    undrawn :
        (n : ℕ) (h : History) → IsUndrawn n (env.on_rand_int h n) → Fault (Call.rand_int n ∷ h)
    unreferenced :
        (m : ObjectMeta) {h : History}
        → IsFailure (env.controller_reference owner_kind owner m)
        → Fault h
    unparsed : (text : String) {h : History} → IsFailure (env.parse_quantity text) → Fault h

  -- Wherever the action fails there is such a reason.
  pub record Blames {A : Type 0} (m : Action.Action A) : Type 0 where
    pub at : (h : History) → IsFailure (m h).0 → Fault (m h).1

module _ {env : Env} {owner_kind : Kind} {owner : ObjectMeta} where
  pub Blames-pure : {A : Type 0} (a : A) → Blames env owner_kind owner (Action.pure a)
  unfolding Action.pure
  Blames-pure a = record { at = λ h f. elim f [ ] }

  pub Blames-lift :
      {A : Type 0} (r : Result A)
      → ((h : History) → IsFailure r → Fault env owner_kind owner h)
      → Blames env owner_kind owner (Action.lift r)
  unfolding Action.lift
  Blames-lift r k = record { at = k }

  module _ {A B : Type 0} where
    bind_at :
        (r : Result A) (f : A → Action.Action B) (h : History)
        → (IsFailure r → Fault env owner_kind owner h)
        → ((a : A) → Blames env owner_kind owner (f a))
        → IsFailure (Action.◌>>=◌ (Action.lift r) f h).0
        → Fault env owner_kind owner (Action.◌>>=◌ (Action.lift r) f h).1
    unfolding Action.◌>>=◌ Action.lift
    bind_at (ok a) f h p k x = (k a).at h x
    bind_at (err e) f h p k x = p x
    bind_at panicked f h p k x = p x

    pub Blames-bind :
        (m : Action.Action A) (f : A → Action.Action B)
        → Blames env owner_kind owner m
        → ((a : A) → Blames env owner_kind owner (f a))
        → Blames env owner_kind owner (Action.◌>>=◌ m f)
    unfolding Action.◌>>=◌ Action.lift
    Blames-bind m f p k = record { at = λ h. bind_at (m h).0 f (m h).1 (p.at h) k }

  module _ {A : Type 0} where
    within_at :
        (context : String) (r : Result A) (h : History)
        → (IsFailure r → Fault env owner_kind owner h)
        → IsFailure (Action.within context (Action.lift r) h).0
        → Fault env owner_kind owner (Action.within context (Action.lift r) h).1
    unfolding Action.handle Action.lift Action.pure Action.raise
    within_at context (ok a) h p x = p x
    within_at context (err e) h p x = p x
    within_at context panicked h p x = p x

    pub Blames-within :
        (context : String) (m : Action.Action A)
        → Blames env owner_kind owner m
        → Blames env owner_kind owner (Action.within context m)
    unfolding Action.handle Action.lift
    Blames-within context m p = record { at = λ h. within_at context (m h).0 (m h).1 (p.at h) }

module _ ⦃env : Env⦄ {owner_kind : Kind} {owner : ObjectMeta} where
  pub Blames-parse :
      (text : String) → Blames env owner_kind owner (Action.lift (env.parse_quantity text))
  Blames-parse text = Blames-lift _ (λ h f. unparsed text f)

  must_at :
      (text : String) (r : Result Quantity) (h : History)
      → env.parse_quantity text ≡ r
      → IsFailure
          (Action.handle (Action.lift r) (λ e. Action.lift {A = Quantity} panicked) Action.pure h).0
      → Fault env owner_kind owner
          (Action.handle (Action.lift r) (λ e. Action.lift {A = Quantity} panicked) Action.pure h).1
  unfolding Action.handle Action.lift Action.pure
  must_at text (ok q) h e x = elim x [ ]
  must_at text (err c) h e x = unparsed text (subst⁻¹ IsFailure e tt)
  must_at text panicked h e x = unparsed text (subst⁻¹ IsFailure e tt)

  pub Blames-must_parse : (text : String) → Blames env owner_kind owner (Action.must_parse text)
  Blames-must_parse text = record { at = λ h. must_at text (env.parse_quantity text) h refl }

  pub Blames-reference :
      (k : Kind) (o : Obj k)
      → Blames env owner_kind owner (Action.set_controller_reference owner_kind owner k o)
  Blames-reference k o =
      Blames-bind _ _ (Blames-lift _ (λ h f. unreferenced (metadata_of k o) f)) (λ m. Blames-pure _)
