-- ===== src/Kube/Ensures/Again.antt =====
-- What a second run does on a server that keeps what it is told.
use mathlib.Core.Path.{subst}
use postgres_cluster_operato.Kube.Resources.{key_of}
use postgres_cluster_operato.Common.{List, ◌≡◌, All, ◌∷◌, [], inl, inr, arith}
use postgres_cluster_operato.Api.Meta.{ObjectMeta, NamespacedName}
use postgres_cluster_operato.Kube.Ensures.{
  Halted, Refused, Ran, before, after, refused, not_created, not_updated, Reads, IsSuccess, Want,
  Applies, Ensured, IsOwned, created, done, updated, next,
}
use postgres_cluster_operato.Kube.Emits.{
  Extends, DeletesNothing, more, Extends-mono, same, Extends-trans,
}
use postgres_cluster_operato.Kube.Env.{
  Call, History, Env, Kind, Obj, as_object, ok, metadata_of, Result, Error, err, panicked,
}

-- A call that makes no new object.
abbrev pub CreatesNothing : Call → Type 0
CreatesNothing (Call.create o) = ⊥
CreatesNothing (Call.create_or_update s f) = ⊥
CreatesNothing _ = Unit

abbrev pub IsPresent : Env → (k : Kind) → NamespacedName → History → Type 0
IsPresent env k key h = (o : Obj k) × (env.on_get h k key ≡ ok o)

-- A created object is found, and one that is found stays until a delete call.
pub record Keeps (env : Env) : Type 0 where
  pub found :
      (h : History) (k : Kind) (o : Obj k)
      → IsSuccess (env.on_create h (as_object k o))
      → IsPresent env k (key_of (metadata_of k o)) (Call.create (as_object k o) ∷ h)
  pub stays :
      (h : History) (k : Kind) (key : NamespacedName) (c : Call)
      → DeletesNothing c
      → IsPresent env k key h
      → IsPresent env k key (c ∷ h)

Reads-spares : (c : Call) → Reads c → DeletesNothing c × CreatesNothing c
Reads-spares (Call.create o) r = elim r [ ]
Reads-spares (Call.update o) r = elim r [ ]
Reads-spares (Call.update_status o) r = elim r [ ]
Reads-spares (Call.delete k key) r = elim r [ ]
Reads-spares (Call.create_or_update s f) r = elim r [ ]
Reads-spares _ r = (tt, tt)

module _ {env : Env} (keeps : Keeps env) where
  IsPresent-Extends :
      (k : Kind) (key : NamespacedName) {h h' : History}
      → Extends DeletesNothing h h'
      → IsPresent env k key h
      → IsPresent env k key h'
  IsPresent-Extends k key same p = p
  IsPresent-Extends k key (more c d e) p = keeps.stays _ k key c d (IsPresent-Extends k key e p)

  IsPresent-Applies :
      (k : Kind) (o : Obj k) {h h' : History}
      → Applies env k o h h'
      → IsPresent env k (key_of (metadata_of k o)) h'
  IsPresent-Applies k o (created e q n s) = keeps.found _ k o s
  IsPresent-Applies k o (updated current x q r s) =
      keeps.stays _ k _ _ tt (keeps.stays _ k _ _ tt (current, q))

Applies-DeletesNothing :
    {env : Env} (k : Kind) (o : Obj k) {h h' : History}
    → Applies env k o h h'
    → Extends DeletesNothing h h'
Applies-DeletesNothing k o (created e q n s) = more _ tt (more _ tt same)
Applies-DeletesNothing k o (updated current x q r s) = more _ tt (more _ tt same)

quiet : {h h' : History} → Extends Reads h h' → Extends DeletesNothing h h'
quiet = Extends-mono (λ c r. (Reads-spares c r).0)

absent :
    {A : Type 0} (env : Env) (k : Kind) (h : History) (key : NamespacedName) (e : Error)
    → IsPresent env k key h
    → env.on_get h k key ≡ err e
    → A
absent env k h key e (o, p) q = absurd (ground arith)

spared : {h h' : History} → Extends Reads h h' → Extends CreatesNothing h h'
spared = Extends-mono (λ c r. (Reads-spares c r).1)

Applies-CreatesNothing :
    {env : Env} (k : Kind) (o : Obj k) {h h' : History}
    → IsPresent env k (key_of (metadata_of k o)) h
    → Applies env k o h h'
    → Extends CreatesNothing h h'
Applies-CreatesNothing {env} k o {h} p (created e q n s) =
    absent env k h (key_of (metadata_of k o)) e p q
Applies-CreatesNothing k o p (updated current x q r s) = more _ tt (more _ tt same)

Refused-CreatesNothing :
    {env : Env} (k : Kind) (o : Obj k) {h h' : History}
    → IsPresent env k (key_of (metadata_of k o)) h
    → Refused env k o h h'
    → Extends CreatesNothing h h'
Refused-CreatesNothing {env} k o {h} p (not_created e q s) =
    absent env k h (key_of (metadata_of k o)) e p q
Refused-CreatesNothing k o p (not_updated current x q r s) = more _ tt (more _ tt same)

module _ (env : Env) (owner_kind : Kind) (owner : ObjectMeta) where
  -- Every object of the list is on the server, under the name that it has with its owner.
  abbrev pub ArePresent : List Want → History → Type 0
  ArePresent ws h =
      All
        (λ w.
          (m : ObjectMeta)
          → env.controller_reference owner_kind owner (metadata_of w.kind w.template) ≡ ok m
          → IsPresent env w.kind (key_of m) h)
        ws

module _ (env : Env) (owner_kind : Kind) (owner : ObjectMeta) (keeps : Keeps env) where
  pub ArePresent-Extends :
      (ws : List Want) {h h' : History}
      → Extends DeletesNothing h h'
      → ArePresent env owner_kind owner ws h
      → ArePresent env owner_kind owner ws h'
  ArePresent-Extends [] e p = tt
  ArePresent-Extends (w ∷ ws) e (p, ps) =
      ((λ m r. IsPresent-Extends keeps w.kind (key_of m) e (p m r)), ArePresent-Extends ws e ps)

module _ {env : Env} {owner_kind : Kind} {owner : ObjectMeta} where
  Ensured-DeletesNothing :
      {ws : List Want} {h h' : History}
      → Ensured env owner_kind owner ws h h'
      → Extends DeletesNothing h h'
  Ensured-DeletesNothing (done e) = quiet e
  Ensured-DeletesNothing (next w o e i a s) =
      Extends-trans (quiet e)
        (Extends-trans (Applies-DeletesNothing w.kind o a) (Ensured-DeletesNothing s))

  same_name :
      (w : Want) (o : Obj w.kind) (m : ObjectMeta)
      → IsOwned env owner_kind owner w o
      → env.controller_reference owner_kind owner (metadata_of w.kind w.template) ≡ ok m
      → metadata_of w.kind o ≡ m
  same_name w o m i e = cc (i.referenced, e)

  named :
      (w : Want) (o : Obj w.kind) (m : ObjectMeta) {h : History}
      → IsOwned env owner_kind owner w o
      → env.controller_reference owner_kind owner (metadata_of w.kind w.template) ≡ ok m
      → IsPresent env w.kind (key_of (metadata_of w.kind o)) h
      → IsPresent env w.kind (key_of m) h
  named w o m {h} i r = subst (λ n. IsPresent env w.kind (key_of n) h) (same_name w o m i r)

  -- After a run that succeeded they all are.
  pub Ensured-ArePresent :
      (keeps : Keeps env) {ws : List Want} {h h' : History}
      → Ensured env owner_kind owner ws h h'
      → ArePresent env owner_kind owner ws h'
  Ensured-ArePresent keeps (done e) = tt
  Ensured-ArePresent keeps (next w o e i a s) = (
    (λ m r.
        IsPresent-Extends keeps w.kind (key_of m) (Ensured-DeletesNothing s)
          (named w o m i r (IsPresent-Applies keeps w.kind o a))),
    Ensured-ArePresent keeps s,
  )

  wanted_at :
      (keeps : Keeps env) (w : Want) (o : Obj w.kind) {h h1 : History}
      → ((m : ObjectMeta)
          → env.controller_reference owner_kind owner (metadata_of w.kind w.template) ≡ ok m
          → IsPresent env w.kind (key_of m) h)
      → Extends Reads h h1
      → IsOwned env owner_kind owner w o
      → IsPresent env w.kind (key_of (metadata_of w.kind o)) h1
  wanted_at keeps w o p e i = IsPresent-Extends keeps w.kind _ (quiet e) (p _ i.referenced)

  Ensured-CreatesNothing :
      (keeps : Keeps env) {ws : List Want} {h h' : History}
      → ArePresent env owner_kind owner ws h
      → Ensured env owner_kind owner ws h h'
      → Extends CreatesNothing h h'
  Ensured-CreatesNothing keeps p (done e) = spared e
  Ensured-CreatesNothing keeps p (next w o e i a s) = Extends-trans (spared e) (
      Extends-trans (Applies-CreatesNothing w.kind o (wanted_at keeps w o p.0 e i) a) (
        Ensured-CreatesNothing keeps
          (ArePresent-Extends env owner_kind owner keeps _
            (Extends-trans (quiet e) (Applies-DeletesNothing w.kind o a)) p.1)
          s))

  Halted-CreatesNothing :
      (keeps : Keeps env) {ws : List Want} {h h' : History}
      → ArePresent env owner_kind owner ws h
      → Halted env owner_kind owner ws h h'
      → Extends CreatesNothing h h'
  Halted-CreatesNothing keeps p (before e x) = spared e
  Halted-CreatesNothing keeps p (refused w o e i r) =
      Extends-trans (spared e) (Refused-CreatesNothing w.kind o (wanted_at keeps w o p.0 e i) r)
  Halted-CreatesNothing keeps p (after w o e i a s) = Extends-trans (spared e) (
      Extends-trans (Applies-CreatesNothing w.kind o (wanted_at keeps w o p.0 e i) a) (
        Halted-CreatesNothing keeps
          (ArePresent-Extends env owner_kind owner keeps _
            (Extends-trans (quiet e) (Applies-DeletesNothing w.kind o a)) p.1)
          s))

  -- Where they all are, the next run makes none of them, whether it succeeds or not.
  pub Ran-CreatesNothing :
      {A : Type 0} (keeps : Keeps env) (ws : List Want) {h : History} (out : Result A × History)
      → ArePresent env owner_kind owner ws h
      → Ran env owner_kind owner ws h out
      → Extends CreatesNothing h out.1
  Ran-CreatesNothing keeps ws out p (inl (s, x)) = Ensured-CreatesNothing keeps p s
  Ran-CreatesNothing keeps ws out p (inr (s, x)) = Halted-CreatesNothing keeps p s

  pub Ran-ArePresent :
      {A : Type 0} (keeps : Keeps env) (ws : List Want) {h : History} (out : Result A × History)
      → Ran env owner_kind owner ws h out
      → IsSuccess out.0
      → ArePresent env owner_kind owner ws out.1
  Ran-ArePresent keeps ws out (inl (s, x)) y = Ensured-ArePresent keeps s
  Ran-ArePresent keeps ws (ok a, h') (inr (s, x)) y = elim x [ ]
  Ran-ArePresent keeps ws (err e, h') (inr (s, x)) y = elim y [ ]
  Ran-ArePresent keeps ws (panicked, h') (inr (s, x)) y = elim y [ ]
