-- ===== src/Kube/Keys.antt =====
-- The keys of the objects that an action writes.
use postgres_cluster_operato.Api.Restore.{PostgresRestore}
use postgres_cluster_operato.Kube.Returns.{Returns-bind_when, Returns-lift, Returns-pure}
use postgres_cluster_operato.Kube.Emits.{
  Returns, Emits, Emits-handle, Emits-get, Emits-if, Emits-create, Emits-raise, Emits-bind,
  Emits-update, Emits-pure,
}
use postgres_cluster_operato.Common.{String, ◌≡◌, ◌∙◌}
use postgres_cluster_operato.Kube.Objects.{Job}
use postgres_cluster_operato.Api.Meta.{ObjectMeta, NamespacedName}
use postgres_cluster_operato.Kube.Env.{Env, Call, Kind, ok, job, a_job, History, postgres_restore}
use postgres_cluster_operato.Kube.Action
use postgres_cluster_operato.Kube.Resources.{key_of, create_or_update, merged, preserve}

-- `SetControllerReference` leaves the name and the namespace of the object as they are.
pub record KeepsKey (env : Env) : Type 0 where
  pub kept :
      (k : Kind) (owner m m' : ObjectMeta)
      → env.controller_reference k owner m ≡ ok m'
      → key_of m' ≡ key_of m

-- `AddFinalizer` leaves the name and the namespace of the object as they are.
pub record MarksOnly (env : Env) : Type 0 where
  pub kept :
      (m : ObjectMeta) (finalizer : String) → key_of (env.add_finalizer m finalizer) ≡ key_of m

-- The server answers a status update of a restore with the restore of that name and namespace.
pub record EchoesKey (env : Env) : Type 0 where
  pub echoed :
      (h : History) (r r' : PostgresRestore)
      → env.on_update_status h postgres_restore r ≡ ok r'
      → key_of r'.metadata ≡ key_of r.metadata

module _ ⦃env : Env⦄ where
  -- A job that was given its owner has the key that it had.
  pub owned_job-Returns :
      (owner_kind : Kind) (owner : ObjectMeta) (j : Job) (key : NamespacedName)
      → KeepsKey env
      → key_of j.metadata ≡ key
      → Returns
          (λ (j' : Job). key_of j'.metadata ≡ key)
          (Action.set_controller_reference owner_kind owner job j)
  owned_job-Returns owner_kind owner j key keeps e =
      Returns-bind_when (λ m. key_of m ≡ key) _ _
        (Returns-lift _ (λ m f. keeps.kept owner_kind owner j.metadata m f ∙ e))
        (λ m f. Returns-pure _ f)

  -- CreateOrUpdate of a job creates or updates a job of its key.
  pub applied_job-Emits :
      (P : Call → Type 0) (j : Job) (key : NamespacedName)
      → P (Call.get job (key_of j.metadata))
      → ((j' : Job) → key_of j'.metadata ≡ key → P (Call.create (a_job j')))
      → ((j' : Job) → key_of j'.metadata ≡ key → P (Call.update (a_job j')))
      → key_of j.metadata ≡ key
      → Emits P (create_or_update job j)
  unfolding create_or_update merged preserve
  applied_job-Emits P j key g c u e =
      Emits-handle _ _ _ (Emits-get {P = P} job _ g)
        (λ x. Emits-if _ _ _ (Emits-create {P = P} job j (c j e)) (Emits-raise _))
        (λ current. Emits-bind _ _ (Emits-update {P = P} job _ (u _ e)) (λ _. Emits-pure _))
