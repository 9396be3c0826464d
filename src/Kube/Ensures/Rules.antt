-- ===== src/Kube/Ensures/Rules.antt =====
-- The rules for `Ensures`, one for each way to build an action.
use postgres_cluster_operato.Kube.Clearing.{IsFailure}
use postgres_cluster_operato.Kube.Faults.{Blames-pure, Blames, Fault}
use postgres_cluster_operato.Kube.Ensures.{
  Reads, Want, Ensured, Ran, Halted, Ensures, before, done, refused, next, after,
}
use postgres_cluster_operato.Common.{
  Bool, List, [], if◌then◌else◌, ◌≡◌, ◌++◌, String, inl, true, inr, false, refl,
}
use postgres_cluster_operato.Kube.Emits.{Emits, Returns, Extends, Emits-pure, Extends-trans}
use postgres_cluster_operato.Api.Meta.{ObjectMeta}
use postgres_cluster_operato.Kube.Env.{Env, Kind, Result, History, ok, err, panicked}
use postgres_cluster_operato.Kube.Action

module _ {env : Env} {owner_kind : Kind} {owner : ObjectMeta} where
  Ensured-before :
      {ws : List Want} {h h1 h2 : History}
      → Extends Reads h h1
      → Ensured env owner_kind owner ws h1 h2
      → Ensured env owner_kind owner ws h h2
  Ensured-before e (done e') = done (Extends-trans e e')
  Ensured-before e (next w o e' i a s) = next w o (Extends-trans e e') i a s

  Halted-before :
      {ws : List Want} {h h1 h2 : History}
      → Extends Reads h h1
      → Halted env owner_kind owner ws h1 h2
      → Halted env owner_kind owner ws h h2
  Halted-before e (before e' x) = before (Extends-trans e e') x
  Halted-before e (refused w o e' i r) = refused w o (Extends-trans e e') i r
  Halted-before e (after w o e' i a s) = after w o (Extends-trans e e') i a s

  Ensured-append :
      {ws us : List Want} {h h1 h2 : History}
      → Ensured env owner_kind owner ws h h1
      → Ensured env owner_kind owner us h1 h2
      → Ensured env owner_kind owner (ws ++ us) h h2
  Ensured-append (done e) s = Ensured-before e s
  Ensured-append (next w o e i a r) s = next w o e i a (Ensured-append r s)

  Halted-append :
      {ws us : List Want} {h h1 h2 : History}
      → Ensured env owner_kind owner ws h h1
      → Halted env owner_kind owner us h1 h2
      → Halted env owner_kind owner (ws ++ us) h h2
  Halted-append (done e) s = Halted-before e s
  Halted-append (next w o e i a r) s = after w o e i a (Halted-append r s)

  Halted-longer :
      {ws : List Want} (us : List Want) {h h' : History}
      → Halted env owner_kind owner ws h h'
      → Halted env owner_kind owner (ws ++ us) h h'
  Halted-longer us (before e x) = before e x
  Halted-longer us (refused w o e i r) = refused w o e i r
  Halted-longer us (after w o e i a s) = after w o e i a (Halted-longer us s)

  then-Ran :
      {B : Type 0} (ws us : List Want) (h h1 : History) (out : Result B × History)
      → Ensured env owner_kind owner ws h h1
      → Ran env owner_kind owner us h1 out
      → Ran env owner_kind owner (ws ++ us) h out
  then-Ran ws us h h1 out e (inl (e', s)) = inl (Ensured-append e e', s)
  then-Ran ws us h h1 out e (inr (s, f)) = inr (Halted-append e s, f)

  module _ {A B : Type 0} where
    bind_at :
        (P : A → Type 0) (ws us : List Want) (r : Result A) (f : A → Action.Action B)
        (h h1 : History)
        → Ran env owner_kind owner ws h (r, h1)
        → ((a : A) → r ≡ ok a → P a)
        → ((a : A) → P a → Ensures env owner_kind owner us (f a))
        → Ran env owner_kind owner (ws ++ us) h (Action.◌>>=◌ (Action.lift r) f h1)
    unfolding Action.◌>>=◌ Action.lift
    bind_at P ws us (ok a) f h h1 (inl (e, s)) p k =
        then-Ran ws us h h1 (f a h1) e ((k a (p a refl)).at h1)
    bind_at P ws us (ok a) f h h1 (inr (s, x)) p k = elim x [ ]
    bind_at P ws us (err e) f h h1 (inl (s, x)) p k = elim x [ ]
    bind_at P ws us (err e) f h h1 (inr (s, x)) p k = inr (Halted-longer us s, tt)
    bind_at P ws us panicked f h h1 (inl (s, x)) p k = elim x [ ]
    bind_at P ws us panicked f h h1 (inr (s, x)) p k = inr (Halted-longer us s, tt)

    -- The lists of two steps, one after the other; the second step may use what is known of the
    -- value of the first.
    pub Ensures-bind_when :
        (P : A → Type 0) (ws us : List Want) (m : Action.Action A) (f : A → Action.Action B)
        → Returns P m
        → Ensures env owner_kind owner ws m
        → ((a : A) → P a → Ensures env owner_kind owner us (f a))
        → Ensures env owner_kind owner (ws ++ us) (Action.◌>>=◌ m f)
    unfolding Action.◌>>=◌ Action.lift
    Ensures-bind_when P ws us m f p e k = record {
      at = λ h. bind_at P ws us (m h).0 f h (m h).1 (e.at h) (p.at h) k;
    }

    pub Ensures-bind :
        (ws us : List Want) (m : Action.Action A) (f : A → Action.Action B)
        → Ensures env owner_kind owner ws m
        → ((a : A) → Ensures env owner_kind owner us (f a))
        → Ensures env owner_kind owner (ws ++ us) (Action.◌>>=◌ m f)
    Ensures-bind ws us m f e k =
        Ensures-bind_when (λ _. Action.⊤) ws us m f (record { at = λ h a q. tt }) e (λ a _. k a)

  module _ {A : Type 0} where
    read_at :
        (r : Result A) (h h' : History)
        → Extends Reads h h'
        → (IsFailure r → Fault env owner_kind owner h')
        → Ran env owner_kind owner [] h (r, h')
    read_at (ok a) h h' e b = inl (done e, tt)
    read_at (err x) h h' e b = inr (before e (b tt), tt)
    read_at panicked h h' e b = inr (before e (b tt), tt)

    -- A step that only reads brings nothing about.
    pub Ensures-Reads :
        (m : Action.Action A)
        → Emits Reads m
        → Blames env owner_kind owner m
        → Ensures env owner_kind owner [] m
    Ensures-Reads m e b = record { at = λ h. read_at (m h).0 h (m h).1 (e.at h) (b.at h) }

    within_at :
        (ws : List Want) (context : String) (r : Result A) (h h' : History)
        → Ran env owner_kind owner ws h (r, h')
        → Ran env owner_kind owner ws h (Action.within context (Action.lift r) h')
    unfolding Action.handle Action.lift Action.pure Action.raise
    within_at ws context (ok a) h h' s = s
    within_at ws context (err e) h h' s = s
    within_at ws context panicked h h' s = s

    pub Ensures-within :
        (ws : List Want) (context : String) (m : Action.Action A)
        → Ensures env owner_kind owner ws m
        → Ensures env owner_kind owner ws (Action.within context m)
    unfolding Action.handle Action.lift
    Ensures-within ws context m e = record {
      at = λ h. within_at ws context (m h).0 h (m h).1 (e.at h);
    }

    pub Ensures-if :
        (b : Bool) (ws us : List Want) (m n : Action.Action A)
        → Ensures env owner_kind owner ws m
        → Ensures env owner_kind owner us n
        → Ensures env owner_kind owner (if b then ws else us) (if b then m else n)
    Ensures-if true ws us m n e f = e
    Ensures-if false ws us m n e f = f

  pub Ensures-when :
      (b : Bool) (ws : List Want) (m : Action.Action Action.⊤)
      → Ensures env owner_kind owner ws m
      → Ensures env owner_kind owner (if b then ws else []) (Action.when b m)
  Ensures-when true ws m e = e
  Ensures-when false ws m e = Ensures-Reads _ (Emits-pure tt) (Blames-pure tt)
