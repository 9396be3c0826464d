-- ===== src/Kube/Guards.antt =====
-- What holds of each call at the history that it is made on.
pub mod Fresh
use postgres_cluster_operato.Kube.Emits.{Extends, Returns, Emits, more, same}
use postgres_cluster_operato.Common.{◌∷◌, Bool, ◌≡◌, if◌then◌else◌, true, false, refl}
use postgres_cluster_operato.Kube.Env.{History, Call, Result, ok, err, panicked, Error}
use postgres_cluster_operato.Kube.Action

pub data Grows (Q : History → Call → Type 0) (h : History) : History → Type 0 where
  still : Grows Q h h
  step : {h' : History} (c : Call) → Q h' c → Grows Q h h' → Grows Q h (c ∷ h')

pub record Guards {A : Type 0} (Q : History → Call → Type 0) (m : Action.Action A) : Type 0 where
  pub at : (h : History) → Grows Q h (m h).1

module _ {Q : History → Call → Type 0} where
  pub Grows-trans : {h h' h'' : History} → Grows Q h h' → Grows Q h' h'' → Grows Q h h''
  Grows-trans g still = g
  Grows-trans g (step c q g') = step c q (Grows-trans g g')

  pub Extends-Grows :
      {P : Call → Type 0} {h h' : History}
      → ((p : History) (c : Call) → P c → Q p c)
      → Extends P h h'
      → Grows Q h h'
  Extends-Grows f same = still
  Extends-Grows f (more c p e) = step c (f _ c p) (Extends-Grows f e)

  pub Guards-Emits :
      {A : Type 0} (P : Call → Type 0) (m : Action.Action A)
      → ((p : History) (c : Call) → P c → Q p c)
      → Emits P m
      → Guards Q m
  Guards-Emits P m f e = record { at = λ h. Extends-Grows f (e.at h) }

  pub Guards-if :
      {A : Type 0} (b : Bool) (m n : Action.Action A)
      → Guards Q m
      → Guards Q n
      → Guards Q (if b then m else n)
  Guards-if true m n k l = k
  Guards-if false m n k l = l

  module _ {A B : Type 0} where
    bind_at :
        (P : A → Type 0) (r : Result A) (f : A → Action.Action B) (h : History)
        → ((a : A) → r ≡ ok a → P a)
        → ((a : A) → P a → Guards Q (f a))
        → Grows Q h (Action.◌>>=◌ (Action.lift r) f h).1
    unfolding Action.◌>>=◌ Action.lift
    bind_at P (ok a) f h p k = (k a (p a refl)).at h
    bind_at P (err e) f h p k = still
    bind_at P panicked f h p k = still

    pub Guards-bind_when :
        (P : A → Type 0) (m : Action.Action A) (f : A → Action.Action B)
        → Returns P m
        → Guards Q m
        → ((a : A) → P a → Guards Q (f a))
        → Guards Q (Action.◌>>=◌ m f)
    unfolding Action.◌>>=◌ Action.lift
    Guards-bind_when P m f p g k = record {
      at = λ h. Grows-trans (g.at h) (bind_at P (m h).0 f (m h).1 (p.at h) k);
    }

    after_at :
        (r : Result A) (failed : Error → Action.Action B) (done : A → Action.Action B) (h : History)
        → ((e : Error) → Guards Q (failed e))
        → ((a : A) → Guards Q (done a))
        → Grows Q h (Action.handle (Action.lift r) failed done h).1
    unfolding Action.handle Action.lift
    after_at (ok a) failed done h kf kd = (kd a).at h
    after_at (err e) failed done h kf kd = (kf e).at h
    after_at panicked failed done h kf kd = still

    pub Grows-handle :
        (m : Action.Action A) (failed : Error → Action.Action B) (done : A → Action.Action B)
        (h : History)
        → Grows Q h (m h).1
        → ((e : Error) → Guards Q (failed e))
        → ((a : A) → Guards Q (done a))
        → Grows Q h (Action.handle m failed done h).1
    unfolding Action.handle Action.lift
    Grows-handle m failed done h g kf kd =
        Grows-trans g (after_at (m h).0 failed done (m h).1 kf kd)
