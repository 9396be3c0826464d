-- ===== src/Kube/Namespaces.antt =====
-- The namespaces that an action writes in.
use postgres_cluster_operato.Kube.Resources.{create_or_update}
use postgres_cluster_operato.Kube.Returns.{
  Returns-bind_when, Returns-pure, Returns-handle_when, Returns-raise, Returns-lift,
}
use postgres_cluster_operato.Kube.Emits.{
  Returns, Emits, Emits-bind_when, Emits-bind, Emits-lift, Emits-pure, Emits-handle, Emits-get,
  Emits-raise, Emits-if, Emits-create, Emits-update,
}
use postgres_cluster_operato.Api.Meta.{ObjectMeta}
use postgres_cluster_operato.Common.{String, ◌≡◌, ◌∙◌}
use postgres_cluster_operato.Kube.Env.{
  Env, Object, Kind, Obj, a_cluster, Call, a_user, metadata_of, a_backup, as_object, ok,
  postgres_cluster, with_metadata, postgres_user, a_restore, postgres_backup, a_config_map,
  postgres_restore, a_secret, config_map, a_service, secret, a_stateful_set, service, a_job,
  a_claim, stateful_set, job, persistent_volume_claim,
}
use postgres_cluster_operato.Kube.Resources.{merged, preserve}
use postgres_cluster_operato.Kube.Action

abbrev pub namespace_of : Object → String
namespace_of (a_cluster o) = o.metadata.namespace
namespace_of (a_user o) = o.metadata.namespace
namespace_of (a_backup o) = o.metadata.namespace
namespace_of (a_restore o) = o.metadata.namespace
namespace_of (a_config_map o) = o.metadata.namespace
namespace_of (a_secret o) = o.metadata.namespace
namespace_of (a_service o) = o.metadata.namespace
namespace_of (a_stateful_set o) = o.metadata.namespace
namespace_of (a_job o) = o.metadata.namespace
namespace_of (a_claim o) = o.metadata.namespace

-- What a call writes is in the namespace, and nothing is deleted or asked of a database; what it
-- reads may be anywhere.
abbrev pub InNamespace : String → Call → Type 0
InNamespace ns (Call.get k key) = Unit
InNamespace ns (Call.create o) = namespace_of o ≡ ns
InNamespace ns (Call.update o) = namespace_of o ≡ ns
InNamespace ns (Call.update_status o) = namespace_of o ≡ ns
InNamespace ns (Call.list_backups n labels) = Unit
InNamespace ns Call.now = Unit
InNamespace ns (Call.rand_int n) = Unit
InNamespace ns _ = ⊥

-- `SetControllerReference` leaves the namespace of the object as it is.
pub record KeepsNamespace (env : Env) : Type 0 where
  pub kept :
      (k : Kind) (owner m m' : ObjectMeta)
      → env.controller_reference k owner m ≡ ok m'
      → m'.namespace ≡ m.namespace

as_object-namespace :
    (k : Kind) (o : Obj k) (ns : String)
    → (metadata_of k o).namespace ≡ ns
    → namespace_of (as_object k o) ≡ ns
as_object-namespace postgres_cluster o ns e = e
as_object-namespace postgres_user o ns e = e
as_object-namespace postgres_backup o ns e = e
as_object-namespace postgres_restore o ns e = e
as_object-namespace config_map o ns e = e
as_object-namespace secret o ns e = e
as_object-namespace service o ns e = e
as_object-namespace stateful_set o ns e = e
as_object-namespace job o ns e = e
as_object-namespace persistent_volume_claim o ns e = e

with_metadata-namespace :
    (k : Kind) (o : Obj k) (m : ObjectMeta) (ns : String)
    → m.namespace ≡ ns
    → (metadata_of k (with_metadata k o m)).namespace ≡ ns
with_metadata-namespace postgres_cluster o m ns e = e
with_metadata-namespace postgres_user o m ns e = e
with_metadata-namespace postgres_backup o m ns e = e
with_metadata-namespace postgres_restore o m ns e = e
with_metadata-namespace config_map o m ns e = e
with_metadata-namespace secret o m ns e = e
with_metadata-namespace service o m ns e = e
with_metadata-namespace stateful_set o m ns e = e
with_metadata-namespace job o m ns e = e
with_metadata-namespace persistent_volume_claim o m ns e = e

merged-namespace :
    (k : Kind) (o current : Obj k) (ns : String)
    → (metadata_of k o).namespace ≡ ns
    → (metadata_of k (merged k o current)).namespace ≡ ns
unfolding merged preserve
merged-namespace postgres_cluster o current ns e = e
merged-namespace postgres_user o current ns e = e
merged-namespace postgres_backup o current ns e = e
merged-namespace postgres_restore o current ns e = e
merged-namespace config_map o current ns e = e
merged-namespace secret o current ns e = e
merged-namespace service o current ns e = e
merged-namespace stateful_set o current ns e = e
merged-namespace job o current ns e = e
merged-namespace persistent_volume_claim o current ns e = e

module _ ⦃env : Env⦄ where
  create_or_update-In :
      (k : Kind) (o : Obj k) (ns : String)
      → (metadata_of k o).namespace ≡ ns
      → Emits (InNamespace ns) (create_or_update k o)
  unfolding create_or_update
  create_or_update-In k o ns e =
      Emits-handle _ _ _ (Emits-get _ _ tt)
        (λ x. Emits-if _ _ _ (Emits-create _ _ (as_object-namespace k o ns e)) (Emits-raise _))
        (λ current.
          Emits-bind _ _
            (Emits-update _ _ (as_object-namespace k _ ns (merged-namespace k o current ns e)))
            (λ _. Emits-pure _))

  reference-namespace :
      (owner_kind : Kind) (owner : ObjectMeta) (k : Kind) (o : Obj k) (ns : String)
      → KeepsNamespace env
      → (metadata_of k o).namespace ≡ ns
      → Returns
          (λ o'. (metadata_of k o').namespace ≡ ns)
          (Action.set_controller_reference owner_kind owner k o)
  reference-namespace owner_kind owner k o ns keeps e =
      Returns-bind_when (λ m. m.namespace ≡ ns) _ _
        (Returns-lift _ (λ m f. keeps.kept owner_kind owner (metadata_of k o) m f ∙ e))
        (λ m f. Returns-pure _ (with_metadata-namespace k o m ns f))

  -- An object of the namespace is given its owner and then created or updated.
  pub owned-In :
      (owner_kind : Kind) (owner : ObjectMeta) (k : Kind) (o : Obj k) (ns : String)
      → KeepsNamespace env
      → (metadata_of k o).namespace ≡ ns
      → Emits
          (InNamespace ns)
          (Action.◌>>=◌ (Action.set_controller_reference owner_kind owner k o) (create_or_update k))
  owned-In owner_kind owner k o ns keeps e =
      Emits-bind_when (λ o'. (metadata_of k o').namespace ≡ ns) _ _
        (reference-namespace owner_kind owner k o ns keeps e)
        (Emits-bind _ _ (Emits-lift _) (λ m. Emits-pure _))
        (λ o' e'. create_or_update-In k o' ns e')

  -- The same where the errors of both steps are wrapped.
  pub owned_within-In :
      (owner_kind : Kind) (owner : ObjectMeta) (k : Kind) (o : Obj k) (ns c d : String)
      → KeepsNamespace env
      → (metadata_of k o).namespace ≡ ns
      → Emits (InNamespace ns) (
          Action.◌>>=◌
            (Action.within c (Action.set_controller_reference owner_kind owner k o))
            (λ o'. Action.within d (create_or_update k o')))
  owned_within-In owner_kind owner k o ns c d keeps e =
      Emits-bind_when (λ o'. (metadata_of k o').namespace ≡ ns) _ _
        (Returns-handle_when (λ o'. (metadata_of k o').namespace ≡ ns) _ _ _
          (reference-namespace owner_kind owner k o ns keeps e) (λ x. Returns-raise _)
          (λ o' e'. Returns-pure o' e'))
        (Emits-handle _ _ _ (Emits-bind _ _ (Emits-lift _) (λ m. Emits-pure _)) (λ x. Emits-raise _)
          (λ o'. Emits-pure _))
        (λ o' e'.
          Emits-handle _ _ _ (create_or_update-In k o' ns e') (λ x. Emits-raise _)
            (λ a. Emits-pure _))
