-- ===== src/Controllers/Setup.antt =====
-- The four functions `SetupWithManager`: which resource a controller is for, and the kinds of the
-- objects whose changes call it, by their owner.
use postgres_cluster_operato.Common.{List, [], ◌∷◌}
use postgres_cluster_operato.Kube.Env.{
  Kind, postgres_cluster, postgres_user, postgres_backup, postgres_restore, config_map, secret,
  service, stateful_set, job,
}

-- `ctrl.NewControllerManagedBy(mgr).For(…).Owns(…)`
pub record Watch : Type 0 where
  pub for_kind : Kind
  pub owns : List Kind

unfoldable pub cluster_watch : Watch
cluster_watch = record {
  for_kind = postgres_cluster;
  owns = stateful_set ∷ service ∷ config_map ∷ secret ∷ [];
}

unfoldable pub user_watch : Watch
user_watch = record { for_kind = postgres_user; owns = secret ∷ [] }

unfoldable pub backup_watch : Watch
backup_watch = record { for_kind = postgres_backup; owns = job ∷ [] }

unfoldable pub restore_watch : Watch
restore_watch = record { for_kind = postgres_restore; owns = job ∷ [] }
