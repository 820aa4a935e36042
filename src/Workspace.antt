-- ===== src/Workspace.antt =====
-- The record of packages/core/src/domain/workspace.ts and how one is made. A field that may be
-- absent is an `Option`; the operations stand in the modules below.
pub mod Stop
mod Tests
pub mod Launch
pub mod Reports
pub mod Changes
pub mod Placement
pub mod Leftovers
use ecs_dev_desktop.Common.{ℕ, String, Bool, Option, none, some, List, or_else}
use ecs_dev_desktop.Result.{Result, ok, err, map}
use ecs_dev_desktop.Errors.{Message}
use ecs_dev_desktop.States.{
  WorkspaceId, OwnerId, BaseImage, VolumeId, SnapshotId, TaskId, IsoTimestamp, WorkspaceState,
  provisioning, running,
}
use ecs_dev_desktop.Resources.{
  EditorKind, default_editor, WorkspaceResources, default_resources_for_editor,
  assert_valid_workspace_resources,
}

pub data DesiredState : Type 0 where
  present deleted : DesiredState

pub data WorkspaceOwnerRole : Type 0 where
  viewer developer admin : WorkspaceOwnerRole

pub data FunctionalStatus : Type 0 where
  healthy degraded : FunctionalStatus

pub data SessionStatus : Type 0 where
  live_session stopped_session restored_session : SessionStatus

pub record AgentSession : Type 0 where
  pub name : String
  pub cwd : String
  pub command : String
  pub resume_command : Option String
  pub created_at : String
  pub last_seen_at : String
  pub status : SessionStatus
  pub live : Bool

pub record Workspace : Type 0 where
  pub id : WorkspaceId
  pub owner_id : OwnerId
  pub owner_email : Option String
  pub owner_role : Option WorkspaceOwnerRole
  pub repo_url : Option String
  pub base_image : BaseImage
  pub editor : Option EditorKind
  pub resources : WorkspaceResources
  pub state : WorkspaceState
  pub desired_state : Option DesiredState
  pub delete_requested_at : Option IsoTimestamp
  pub created_at : IsoTimestamp
  pub last_activity : IsoTimestamp
  pub volume_id : Option VolumeId
  pub task_id : Option TaskId
  pub latest_snapshot_id : Option SnapshotId
  pub latest_snapshot_at : Option IsoTimestamp
  pub snapshot_interval_ms : Option ℕ
  pub idle_stop_ms : Option ℕ
  pub always_on : Option Bool
  pub ssh_host : Option String
  pub functional : Option FunctionalStatus
  pub functional_detail : Option Message
  pub functional_at : Option IsoTimestamp
  pub disk_used_bytes : Option ℕ
  pub disk_total_bytes : Option ℕ
  pub sessions : Option (List AgentSession)
  pub sessions_at : Option IsoTimestamp
  pub stop_requested_at : Option IsoTimestamp
  pub stop_requested_by : Option String
  pub terminated_at : Option IsoTimestamp
  pub share_enabled : Option Bool
  pub share_enabled_at : Option IsoTimestamp
  pub placement_reason : Option Message
  pub placement_attempts : Option ℕ
  pub placement_retry_at : Option IsoTimestamp

-- `ProvisionParams` without the runtime bindings.
pub record ReserveParams : Type 0 where
  pub id : WorkspaceId
  pub owner_id : OwnerId
  pub owner_email : Option String
  pub owner_role : Option WorkspaceOwnerRole
  pub repo_url : Option String
  pub base_image : BaseImage
  pub editor : Option EditorKind
  pub resources : Option WorkspaceResources
  pub snapshot_interval_ms : Option ℕ
  pub idle_stop_ms : Option ℕ
  pub always_on : Option Bool
  pub at : IsoTimestamp

abbrev pub reserved : ReserveParams → WorkspaceResources → Workspace
reserved p r = record {
  id = p.id;
  owner_id = p.owner_id;
  owner_email = p.owner_email;
  owner_role = p.owner_role;
  repo_url = p.repo_url;
  base_image = p.base_image;
  editor = some (or_else p.editor default_editor);
  resources = r;
  state = provisioning;
  desired_state = some present;
  delete_requested_at = none;
  created_at = p.at;
  last_activity = p.at;
  volume_id = none;
  task_id = none;
  latest_snapshot_id = none;
  latest_snapshot_at = none;
  snapshot_interval_ms = p.snapshot_interval_ms;
  idle_stop_ms = p.idle_stop_ms;
  always_on = p.always_on;
  ssh_host = none;
  functional = none;
  functional_detail = none;
  functional_at = none;
  disk_used_bytes = none;
  disk_total_bytes = none;
  sessions = none;
  sessions_at = none;
  stop_requested_at = none;
  stop_requested_by = none;
  terminated_at = none;
  share_enabled = none;
  share_enabled_at = none;
  placement_reason = none;
  placement_attempts = none;
  placement_retry_at = none;
}

unfoldable pub reserve : ReserveParams → Result Workspace Message
reserve p =
    map
      (assert_valid_workspace_resources
        (or_else p.resources (default_resources_for_editor (or_else p.editor default_editor))))
      (reserved p)

pub record ProvisionParams : Type 0 where
  pub reservation : ReserveParams
  pub open reservation use *
  pub volume_id : VolumeId
  pub task_id : TaskId
  pub ssh_host : Option String

unfoldable pub provision : ProvisionParams → Result Workspace Message
unfolding reserve
provision p = map (reserve p.reservation) λ ws. record ws {
  state = running;
  volume_id = some p.volume_id;
  task_id = some p.task_id;
  ssh_host = p.ssh_host;
}
