-- ===== src/Kube/Ensures/Writes.antt =====
-- That CreateOrUpdate of an object with its owner brings the object about.
use postgres_cluster_operato.Kube.Faults.{Blames-reference, IsUnanswered, unread}
use postgres_cluster_operato.Kube.Emits.{
  more, same, Emits, Returns, Emits-bind, Emits-lift, Emits-pure,
}
use postgres_cluster_operato.Kube.Returns.{
  Returns-bind_when, Returns-pure, Returns-raise, Returns-handle_when,
}
use postgres_cluster_operato.Kube.Ensures.Rules.{Ensures-bind_when, Ensures-Reads, Ensures-within}
use postgres_cluster_operato.Kube.Clearing.{IsFailure}
use mathlib.Core.Path.{subst, subst⁻¹}
use postgres_cluster_operato.Common.{
  ◌≡◌, Bool, ◌∷◌, [], inr, if◌then◌else◌, true, false, inl, refl, sym, ap, ◌∙◌, String,
}
use postgres_cluster_operato.Kube.Resources.{key_of, merged, preserve}
use postgres_cluster_operato.Kube.Ensures.{
  want, Reads, HasContents, IsRevision, Want, IsOwned, IsSuccess, Ran, Ensures, before, done, next,
  refused, created, updated, not_created, not_updated,
}
use postgres_cluster_operato.Api.Meta.{ObjectMeta, NamespacedName}
use postgres_cluster_operato.Kube.Env.{
  Env, Kind, Obj, History, Error, Call, Result, metadata_of, ok, err, as_object, panicked,
  with_metadata, postgres_cluster, postgres_user, postgres_backup, postgres_restore, config_map,
  secret, service, stateful_set, job, persistent_volume_claim,
}
use postgres_cluster_operato.Kube.Action
use postgres_cluster_operato.Kube.Resources.{create_or_update}

metadata_with : (k : Kind) (t : Obj k) (m : ObjectMeta) → metadata_of k (with_metadata k t m) ≡ m
metadata_with postgres_cluster t m = refl
metadata_with postgres_user t m = refl
metadata_with postgres_backup t m = refl
metadata_with postgres_restore t m = refl
metadata_with config_map t m = refl
metadata_with secret t m = refl
metadata_with service t m = refl
metadata_with stateful_set t m = refl
metadata_with job t m = refl
metadata_with persistent_volume_claim t m = refl

with-HasContents : (k : Kind) (t : Obj k) (m : ObjectMeta) → HasContents k t (with_metadata k t m)
with-HasContents postgres_cluster t m = refl
with-HasContents postgres_user t m = refl
with-HasContents postgres_backup t m = refl
with-HasContents postgres_restore t m = refl
with-HasContents config_map t m = refl
with-HasContents secret t m = tt
with-HasContents service t m = refl
with-HasContents stateful_set t m = refl
with-HasContents job t m = refl
with-HasContents persistent_volume_claim t m = refl

merged-IsRevision : (k : Kind) (o current : Obj k) → IsRevision k o current (merged k o current)
unfolding merged preserve
merged-IsRevision postgres_cluster o current = refl
merged-IsRevision postgres_user o current = refl
merged-IsRevision postgres_backup o current = refl
merged-IsRevision postgres_restore o current = refl
merged-IsRevision config_map o current = refl
merged-IsRevision secret o current = refl
merged-IsRevision service o current = refl
merged-IsRevision stateful_set o current = refl
merged-IsRevision job o current = refl
merged-IsRevision persistent_volume_claim o current = refl

pub lift-Returns : {A : Type 0} (r : Result A) → Returns (λ a. r ≡ ok a) (Action.lift r)
unfolding Action.lift
lift-Returns r = record { at = λ h a e. e }

module _ ⦃env : Env⦄ {owner_kind : Kind} {owner : ObjectMeta} where
  module _ (w : Want) (o : Obj w.kind) (i : IsOwned env owner_kind owner w o) (h : History) where
    abbrev key : NamespacedName
    key = key_of (metadata_of w.kind o)

    abbrev found_at : History
    found_at = Call.get w.kind key ∷ h

    abbrev Once {ℓ} : {A : Type ℓ} → Result A × History → Type 0
    Once = Ran env owner_kind owner (w ∷ []) h

    halts :
        {A : Type 0} (r : Result A)
        → IsFailure r
        → IsUnanswered (env.on_get h w.kind key)
        → Once (r, found_at)
    halts r f u = inr (before (more _ tt same) (unread w.kind key h u), f)

    created_at :
        (e : Error) (r : Result (Unit {0}))
        → env.on_get h w.kind key ≡ err e
        → e.not_found ≡ true
        → env.on_create found_at (as_object w.kind o) ≡ r
        → Once (r, Call.create (as_object w.kind o) ∷ found_at)
    created_at e (ok u) q n p =
        inl (next w o same i (created e q n (subst⁻¹ IsSuccess p tt)) (done same), tt)
    created_at e (err x) q n p =
        inr (refused w o same i (not_created e q (λ s. subst IsSuccess p s)), tt)
    created_at e panicked q n p =
        inr (refused w o same i (not_created e q (λ s. subst IsSuccess p s)), tt)

    updated_at :
        (current : Obj w.kind) (r : Result (Obj w.kind))
        → env.on_get h w.kind key ≡ ok current
        → env.on_update found_at w.kind (merged w.kind o current) ≡ r
        → Once (
            Action.◌>>=◌
              (Action.lift r)
              (λ _. Action.pure {A = Action.⊤} tt)
              (Call.update (as_object w.kind (merged w.kind o current)) ∷ found_at))
    unfolding Action.◌>>=◌ Action.lift Action.pure
    updated_at current (ok u) q p = inl (
      next w o same i
          (updated current _ q (merged-IsRevision w.kind o current) (subst⁻¹ IsSuccess p tt))
          (done same),
      tt,
    )
    updated_at current (err x) q p = inr (
      refused w o same i
          (not_updated current _ q (merged-IsRevision w.kind o current) (λ s. subst IsSuccess p s)),
      tt,
    )
    updated_at current panicked q p = inr (
      refused w o same i
          (not_updated current _ q (merged-IsRevision w.kind o current) (λ s. subst IsSuccess p s)),
      tt,
    )

    missing_at :
        (e : Error) (missing : Bool)
        → env.on_get h w.kind key ≡ err e
        → e.not_found ≡ missing
        → Once ((if missing then Action.create w.kind o else Action.raise e) found_at)
    unfolding Action.create Action.raise
    missing_at e true q n = created_at e (env.on_create found_at (as_object w.kind o)) q n refl
    missing_at e false q n = halts {A = Action.⊤} (err e) tt (subst⁻¹ IsUnanswered q n)

    answered_at :
        (r : Result (Obj w.kind))
        → env.on_get h w.kind key ≡ r
        → Once (
            Action.handle
              (Action.lift r)
              (λ e. if e.not_found then Action.create w.kind o else Action.raise e)
              (λ current.
                Action.◌>>◌
                  (Action.update w.kind (merged w.kind o current))
                  (Action.pure {A = Action.⊤} tt))
              found_at)
    unfolding Action.handle Action.lift Action.update Action.◌>>=◌
    answered_at (ok current) q =
        updated_at current (env.on_update found_at w.kind (merged w.kind o current)) q refl
    answered_at (err e) q = missing_at e e.not_found q refl
    answered_at panicked q = halts {A = Action.⊤} panicked tt (subst⁻¹ IsUnanswered q tt)

  pub Ensures-create_or_update :
      (w : Want) (o : Obj w.kind)
      → IsOwned env owner_kind owner w o
      → Ensures env owner_kind owner (w ∷ []) (create_or_update w.kind o)
  unfolding create_or_update Action.handle Action.lift Action.get
  Ensures-create_or_update w o i = record {
    at = λ h. answered_at w o i h (env.on_get h w.kind (key_of (metadata_of w.kind o))) refl;
  }

module _ ⦃env : Env⦄ (owner_kind : Kind) (owner : ObjectMeta) where
  module _ (k : Kind) (t : Obj k) where
    pub reference-IsOwned :
        Returns
          (IsOwned env owner_kind owner (want k t))
          (Action.set_controller_reference owner_kind owner k t)
    reference-IsOwned =
        Returns-bind_when (λ m. env.controller_reference owner_kind owner (metadata_of k t) ≡ ok m)
          _ _ (lift-Returns _)
          λ m e. Returns-pure _ (record {
            referenced = e ∙ sym (ap ok (metadata_with k t m));
            filled = with-HasContents k t m;
          })

    pub reference-Reads : Emits Reads (Action.set_controller_reference owner_kind owner k t)
    reference-Reads = Emits-bind _ _ (Emits-lift _) (λ m. Emits-pure _)

    -- An object is given its owner and then created or updated.
    pub owned-Ensures :
        Ensures env owner_kind owner
          (want k t ∷ [])
          (Action.◌>>=◌ (Action.set_controller_reference owner_kind owner k t) (create_or_update k))
    owned-Ensures =
        Ensures-bind_when (IsOwned env owner_kind owner (want k t)) [] (want k t ∷ []) _ _
          reference-IsOwned (Ensures-Reads _ reference-Reads (Blames-reference k t))
          (Ensures-create_or_update (want k t))

    -- The same where the errors of both steps are wrapped.
    pub owned_within-Ensures :
        (c d : String)
        → Ensures env owner_kind owner (want k t ∷ []) (
            Action.◌>>=◌
              (Action.within c (Action.set_controller_reference owner_kind owner k t))
              (λ o. Action.within d (create_or_update k o)))
    owned_within-Ensures c d =
        Ensures-bind_when (IsOwned env owner_kind owner (want k t)) [] (want k t ∷ []) _ _
          (Returns-handle_when (IsOwned env owner_kind owner (want k t)) _ _ _ reference-IsOwned
            (λ x. Returns-raise _) (λ o i. Returns-pure o i))
          (Ensures-within _ _ _ (Ensures-Reads _ reference-Reads (Blames-reference k t)))
          (λ o i. Ensures-within _ _ _ (Ensures-create_or_update (want k t) o i))
