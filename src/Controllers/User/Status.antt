-- ===== src/Controllers/User/Status.antt =====
-- `updateStatus` of a user.
pub mod Kept
use postgres_cluster_operato.Common.{
  String, Bool, true, false, ◌&&◌, not, Option, none, some, List, [], if◌then◌else◌, is_some,
  is_empty,
}
use postgres_cluster_operato.Api.User.{PostgresUser, PostgresUserStatus}
use postgres_cluster_operato.Kube.Env.{Env, postgres_user}
use postgres_cluster_operato.Kube.Action.{Action, update_status}

-- A status with a phase and a message alone, as the early returns write it.
abbrev pub brief_status : String → String → PostgresUserStatus
brief_status phase message = record {
  phase = phase;
  message = message;
  conditions = [];
  last_password_change = none;
  databases_granted = [];
  instance_statuses = [];
}

-- What an update that leaves them out keeps of the old status.
unfoldable pub preserved : PostgresUserStatus → PostgresUserStatus → PostgresUserStatus
preserved old new = record new {
  instance_statuses =
      if is_empty new.instance_statuses && not (is_empty old.instance_statuses)
      then old.instance_statuses
      else new.instance_statuses;
  last_password_change =
      if not (is_some new.last_password_change) && is_some old.last_password_change
      then old.last_password_change
      else new.last_password_change;
}

module _ ⦃env : Env⦄ where
  unfoldable pub update_user_status : PostgresUser → PostgresUserStatus → Action PostgresUser
  unfolding preserved
  update_user_status user status =
      update_status postgres_user (record user { status = preserved user.status status })
