-- ===== src/Controllers/User/Status/Kept.antt =====
-- What a status update keeps.
use postgres_cluster_operato.Common.{◌≡◌, [], none, arith, ◌↔◌}
use postgres_cluster_operato.Api.User.{PostgresUserStatus}
use postgres_cluster_operato.Controllers.User.Status.{preserved}

preserved_time :
    (old new : PostgresUserStatus)
    → ((preserved old new).last_password_change ≡ none)
      ↔ ((old.last_password_change ≡ none) × (new.last_password_change ≡ none))
unfolding preserved
preserved_time old new = ground arith

preserved_statuses :
    (old new : PostgresUserStatus)
    → ((preserved old new).instance_statuses ≡ [])
      ↔ ((old.instance_statuses ≡ []) × (new.instance_statuses ≡ []))
unfolding preserved
preserved_statuses old new = ground arith

preserved-preserved :
    (old new : PostgresUserStatus) → preserved (preserved old new) new ≡ preserved old new
unfolding preserved
preserved-preserved old new = ground arith

-- An update of a user's status leaves no time of the last password change only where neither
-- status has one, and no instance statuses only where neither status lists any; applying it again
-- changes nothing.
preserved-keeps :
    (old new : PostgresUserStatus)
    → (((preserved old new).last_password_change ≡ none)
        ↔ ((old.last_password_change ≡ none) × (new.last_password_change ≡ none)))
      × (((preserved old new).instance_statuses ≡ [])
          ↔ ((old.instance_statuses ≡ []) × (new.instance_statuses ≡ [])))
      × (preserved (preserved old new) new ≡ preserved old new)
preserved-keeps old new =
    (preserved_time old new, preserved_statuses old new, preserved-preserved old new)
