-- ===== src/Kube/Resources.antt =====
-- internal/k8s/resources.go: `CreateOrUpdate` and `CreateBackupPVC`.
pub mod NoDeletes
pub mod Stored
use postgres_cluster_operato.Common.{String, ◌<>◌, Bool, none, [], ◌∷◌, if◌then◌else◌}
use postgres_cluster_operato.Api.Meta.{ObjectMeta, NamespacedName, new_metadata}
use postgres_cluster_operato.Api.Cluster.{PostgresCluster}
use postgres_cluster_operato.Kube.Objects.{PersistentVolumeClaim}
use postgres_cluster_operato.Kube.Env.{
  Error, Kind, config_map, secret, persistent_volume_claim, Obj, metadata_of, with_metadata, Env,
}
use postgres_cluster_operato.Kube.Action.{
  Action, ⊤, ◌>>=◌, ◌>>◌, pure, raise, handle, get, create, update, must_parse,
}

-- `client.ObjectKeyFromObject`
abbrev pub key_of : ObjectMeta → NamespacedName
key_of m = record { namespace = m.namespace; name = m.name }

-- The type switch: a secret or a config map keeps the contents that are on the server.
unfoldable pub preserve : (k : Kind) → Obj k → Obj k → Obj k
preserve secret target current = record target { contents = current.contents }
preserve config_map target current = record target { contents = current.contents }
preserve k target current = target

-- `obj.SetResourceVersion`
abbrev set_resource_version : (k : Kind) → Obj k → String → Obj k
set_resource_version k o version =
    with_metadata k o (record (metadata_of k o) { resource_version = version })

-- What is sent to the server where the object exists.
unfoldable pub merged : (k : Kind) → Obj k → Obj k → Obj k
unfolding preserve
merged k o current =
    set_resource_version k (preserve k o current) (metadata_of k current).resource_version

module _ ⦃env : Env⦄ where
  unfoldable pub create_or_update : (k : Kind) → Obj k → Action ⊤
  unfolding merged
  create_or_update k o =
      handle (get k (key_of (metadata_of k o))) (λ e. if e.not_found then create k o else raise e)
        (λ current. update k (merged k o current) >> pure tt)

  unfoldable pub create_backup_pvc : PostgresCluster → String → Action ⊤
  create_backup_pvc cluster size = do
    storage ← must_parse size
    create persistent_volume_claim (record {
      metadata =
          new_metadata (cluster.metadata.name <> "-backup-storage") cluster.metadata.namespace (
            ("app.kubernetes.io/name", "postgres-backup")
            ∷ ("app.kubernetes.io/instance", cluster.metadata.name)
            ∷ ("app.kubernetes.io/managed-by", "postgres-operator")
            ∷ ("database.example.com/cluster", cluster.metadata.name)
            ∷ []);
      access_modes = "ReadWriteOnce" ∷ [];
      requests = ("storage", storage) ∷ [];
      storage_class_name = none;
    })
