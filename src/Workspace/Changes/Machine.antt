-- ===== src/Workspace/Changes/Machine.antt =====
-- The changes follow the state machine of packages/core/src/lifecycle/workspace-state-machine.ts,
-- and leave the identity of a workspace alone.
use ecs_dev_desktop.Common.{◌≡◌, ◌⊎◌, Option, some, none, arith, if◌then◌else◌, is_some}
use ecs_dev_desktop.Result.{ok}
use ecs_dev_desktop.States.{
  WorkspaceState, WorkspaceEvent, provisioned, activity, stop, request_stop, cancel_stop, wake,
  terminate, request_delete, recover, undelete, retry, fail,
}
use ecs_dev_desktop.Lifecycle.{transition}
use ecs_dev_desktop.Workspace.{Workspace}
use ecs_dev_desktop.Workspace.Changes.{
  Change, apply, stopping_marked, stopping_canceled, stopped_marked, terminated_marked, undeleted,
  deleting_marked, waking_marked, provisioned_marked, provisioning_failed, provisioning_retried,
  task_lost, activity_marked, recovered_marked, snapshot_lost,
}

-- The event that a change stands for in a given record, if it moves the state.
abbrev pub change_event : Workspace → Change → Option WorkspaceEvent
change_event ws (stopping_marked at by) = some request_stop
change_event ws (stopping_canceled at) = some cancel_stop
change_event ws (stopped_marked fresh at) = some stop
change_event ws (terminated_marked at) = some terminate
change_event ws (undeleted at) = some undelete
change_event ws (deleting_marked at) = some request_delete
change_event ws (waking_marked at) = some wake
change_event ws (provisioned_marked volume task at host) = some provisioned
change_event ws (provisioning_failed reason at) = some fail
change_event ws (provisioning_retried at) = some retry
change_event ws (task_lost at) = some (if is_some ws.latest_snapshot_id then stop else fail)
change_event ws (activity_marked at) = some activity
change_event ws (recovered_marked at) = some recover
change_event ws (snapshot_lost at) = some fail
change_event ws _ = none

-- The state moved along the event, or stayed.
abbrev pub Follows : Option WorkspaceEvent → WorkspaceState → WorkspaceState → Type 0
Follows none s t = t ≡ s
Follows (some e) s t = (transition s e ≡ ok t) ⊎ (t ≡ s)

-- A change that is accepted leaves the state as it was, or moves it along the one event of the state
-- machine that the change stands for; a change that stands for no event leaves it as it was.
pub apply-Follows :
    (ws : Workspace) (c : Change) (next : Workspace)
    → apply ws c ≡ ok next
    → Follows (change_event ws c) ws.state next.state
unfolding apply
apply-Follows ws (stopping_marked at by) next h = ground arith
apply-Follows ws _ next h = ground arith

-- What a record says of whose workspace it is, what it runs and when it was made.
pub record SameIdentity (a b : Workspace) : Type 0 where
  pub id : b.id ≡ a.id
  pub owner : b.owner_id ≡ a.owner_id
  pub owner_email : b.owner_email ≡ a.owner_email
  pub owner_role : b.owner_role ≡ a.owner_role
  pub repo : b.repo_url ≡ a.repo_url
  pub image : b.base_image ≡ a.base_image
  pub editor : b.editor ≡ a.editor
  pub resources : b.resources ≡ a.resources
  pub created : b.created_at ≡ a.created_at

-- No accepted change touches the identity of a record: its id, its owner, the repository, image,
-- editor and size it was made with, and the time it was made.
pub apply-SameIdentity :
    (ws : Workspace) (c : Change) (next : Workspace) → apply ws c ≡ ok next → SameIdentity ws next
unfolding apply
apply-SameIdentity ws (stopping_marked at by) next h = ground arith
apply-SameIdentity ws _ next h = ground arith
