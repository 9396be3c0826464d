-- ===== src/Kube/Ensures.antt =====
-- Runs that bring the objects of a list about, one after the other, and write nothing else.
pub mod Rules
pub mod Writes
pub mod Again
use postgres_cluster_operato.Kube.Faults.{Fault}
use postgres_cluster_operato.Kube.Clearing.{IsFailure}
use postgres_cluster_operato.Kube.Emits.{Extends}
use postgres_cluster_operato.Kube.Resources.{key_of}
use postgres_cluster_operato.Common.{◌≡◌, List, ◌⊎◌, true, [], ◌∷◌, String}
use postgres_cluster_operato.Api.Meta.{ObjectMeta}
use postgres_cluster_operato.Kube.Env.{
  Env, Kind, Result, Call, ok, Obj, History, err, metadata_of, panicked, Error, with_metadata,
  secret, as_object, config_map,
}
use postgres_cluster_operato.Kube.Action

-- An object of an owner, before the reference to the owner is put in.
pub record Want : Type 0 where
  pub kind : Kind
  pub template : Obj kind

abbrev pub want : (k : Kind) → Obj k → Want
want k t = record { kind = k; template = t }

-- A call that changes no object on the server.
abbrev pub Reads : Call → Type 0
Reads (Call.create o) = ⊥
Reads (Call.update o) = ⊥
Reads (Call.update_status o) = ⊥
Reads (Call.delete k key) = ⊥
Reads (Call.create_or_update s f) = ⊥
Reads _ = Unit

-- The object has the contents of the template; of a secret they are random.
abbrev pub HasContents : (k : Kind) → Obj k → Obj k → Type 0
HasContents secret t o = Unit
HasContents k t o = o ≡ with_metadata k t (metadata_of k o)

abbrev pub IsSuccess {ℓ} : {A : Type ℓ} → Result A → Type 0
IsSuccess (ok _) = Unit
IsSuccess (err e) = ⊥
IsSuccess panicked = ⊥

-- The metadata of an update: that of the object, at the version that was read.
abbrev pub at_version : ObjectMeta → String → ObjectMeta
at_version m version = record m { resource_version = version }

-- What is sent where an object was found: at the version that was found, a secret and a config map
-- keep the contents that are stored, and everything else is sent as it was made.
abbrev pub IsRevision : (k : Kind) → Obj k → Obj k → Obj k → Type 0
IsRevision secret o current x = x ≡ record {
  metadata = at_version o.metadata current.metadata.resource_version;
  contents = current.contents;
}
IsRevision config_map o current x = x ≡ record {
  metadata = at_version o.metadata current.metadata.resource_version;
  contents = current.contents;
}
IsRevision k o current x =
    x ≡ with_metadata k o (at_version (metadata_of k o) (metadata_of k current).resource_version)

module _ (env : Env) where
  -- What CreateOrUpdate does where it succeeds: the object was not found and is created, or it was
  -- found and is updated.
  pub data Applies (k : Kind) (o : Obj k) (h : History) : History → Type 0 where
    created :
        (e : Error)
        → env.on_get h k (key_of (metadata_of k o)) ≡ err e
        → e.not_found ≡ true
        → IsSuccess (env.on_create (Call.get k (key_of (metadata_of k o)) ∷ h) (as_object k o))
        → Applies k o h (Call.create (as_object k o) ∷ Call.get k (key_of (metadata_of k o)) ∷ h)
    updated :
        (current x : Obj k)
        → env.on_get h k (key_of (metadata_of k o)) ≡ ok current
        → IsRevision k o current x
        → IsSuccess (env.on_update (Call.get k (key_of (metadata_of k o)) ∷ h) k x)
        → Applies k o h (Call.update (as_object k x) ∷ Call.get k (key_of (metadata_of k o)) ∷ h)

  -- The last write of a run that fails at it.
  pub data Refused (k : Kind) (o : Obj k) (h : History) : History → Type 0 where
    not_created :
        (e : Error)
        → env.on_get h k (key_of (metadata_of k o)) ≡ err e
        → ¬ (IsSuccess (env.on_create (Call.get k (key_of (metadata_of k o)) ∷ h) (as_object k o)))
        → Refused k o h (Call.create (as_object k o) ∷ Call.get k (key_of (metadata_of k o)) ∷ h)
    not_updated :
        (current x : Obj k)
        → env.on_get h k (key_of (metadata_of k o)) ≡ ok current
        → IsRevision k o current x
        → ¬ (IsSuccess (env.on_update (Call.get k (key_of (metadata_of k o)) ∷ h) k x))
        → Refused k o h (Call.update (as_object k x) ∷ Call.get k (key_of (metadata_of k o)) ∷ h)

  module _ (owner_kind : Kind) (owner : ObjectMeta) where
    -- The object of a want, with its owner.
    pub record IsOwned (w : Want) (o : Obj w.kind) : Type 0 where
      pub referenced :
          env.controller_reference owner_kind owner (metadata_of w.kind w.template)
          ≡ ok (metadata_of w.kind o)
      pub filled : HasContents w.kind w.template o

    -- All of the list, in its order, with only reads between.
    pub data Ensured : List Want → History → History → Type 0 where
      done : {h h' : History} → Extends Reads h h' → Ensured [] h h'
      next :
          (w : Want) (o : Obj w.kind) {ws : List Want} {h h1 h2 h' : History}
          → Extends Reads h h1
          → IsOwned w o
          → Applies w.kind o h1 h2
          → Ensured ws h2 h'
          → Ensured (w ∷ ws) h h'

    -- The list up to some place, and then a fault, or one write, which is refused.
    pub data Halted : List Want → History → History → Type 0 where
      before :
          {ws : List Want} {h h' : History}
          → Extends Reads h h'
          → Fault env owner_kind owner h'
          → Halted ws h h'
      refused :
          (w : Want) (o : Obj w.kind) {ws : List Want} {h h1 h2 : History}
          → Extends Reads h h1
          → IsOwned w o
          → Refused w.kind o h1 h2
          → Halted (w ∷ ws) h h2
      after :
          (w : Want) (o : Obj w.kind) {ws : List Want} {h h1 h2 h' : History}
          → Extends Reads h h1
          → IsOwned w o
          → Applies w.kind o h1 h2
          → Halted ws h2 h'
          → Halted (w ∷ ws) h h'

    abbrev pub Ran {ℓ} : {A : Type ℓ} → List Want → History → Result A × History → Type 0
    Ran ws h out = (Ensured ws h out.1 × IsSuccess out.0) ⊎ (Halted ws h out.1 × IsFailure out.0)

    -- A success has brought all of the list about; a failure has stopped on the way.
    pub record Ensures {A : Type 0} (ws : List Want) (m : Action.Action A) : Type 0 where
      pub at : (h : History) → Ran ws h (m h)
