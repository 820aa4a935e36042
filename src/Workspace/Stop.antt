-- ===== src/Workspace/Stop.antt =====
-- The operations of packages/core/src/domain/workspace.ts that stop, share and delete a workspace.
use ecs_dev_desktop.Common.{
  String, Bool, not, ◌&&◌, Option, none, some, List, [], ◌∷◌, ◌==◌, or_option, includes,
  if◌then◌else◌,
}
use ecs_dev_desktop.Result.{Result, ok, err, map}
use ecs_dev_desktop.Errors.{DomainError, conflict, no_retained_snapshot, cannot_share}
use ecs_dev_desktop.States.{
  SnapshotId, IsoTimestamp, WorkspaceState, provisioning, running, idle, deleting, stop,
  request_stop, cancel_stop, terminate, request_delete, undelete, state_eq,
}
use ecs_dev_desktop.Lifecycle.{transition}
use ecs_dev_desktop.Workspace.{Workspace, present, deleted}

-- The placement-wait fields, cleared: `...noPlacementWait`.
abbrev pub no_placement_wait : Workspace → Workspace
no_placement_wait ws = record ws {
  placement_reason = none;
  placement_attempts = none;
  placement_retry_at = none;
}

unfoldable pub mark_stopping :
    Workspace → IsoTimestamp → Option String → Result Workspace DomainError
mark_stopping ws at by =
    map (transition ws.state request_stop)
      λ next. record ws { state = next; stop_requested_at = some at; stop_requested_by = by }

unfoldable pub cancel_stopping : Workspace → IsoTimestamp → Result Workspace DomainError
cancel_stopping ws at = map (transition ws.state cancel_stop) λ next. record ws {
  state = next;
  last_activity = at;
  stop_requested_at = none;
  stop_requested_by = none;
}

-- The snapshot that was taken while stopping.
pub record FreshSnapshot : Type 0 where
  pub id : SnapshotId
  pub at : IsoTimestamp

abbrev pub fresh_id : Option FreshSnapshot → Option SnapshotId
fresh_id none = none
fresh_id (some s) = some s.id

abbrev pub fresh_at : Option FreshSnapshot → Option IsoTimestamp
fresh_at none = none
fresh_at (some s) = some s.at

unfoldable pub mark_stopped :
    Workspace → Option FreshSnapshot → IsoTimestamp → Result Workspace DomainError
mark_stopped ws fresh at = map (transition ws.state stop) λ next. no_placement_wait (record ws {
  state = next;
  last_activity = at;
  latest_snapshot_id = or_option (fresh_id fresh) ws.latest_snapshot_id;
  latest_snapshot_at = or_option (fresh_at fresh) ws.latest_snapshot_at;
  volume_id = none;
  task_id = none;
  ssh_host = none;
  stop_requested_at = none;
  stop_requested_by = none;
  share_enabled = none;
  share_enabled_at = none;
  functional = none;
  functional_detail = none;
  functional_at = none;
})

unfoldable pub mark_terminated : Workspace → IsoTimestamp → Result Workspace DomainError
mark_terminated ws at = map (transition ws.state terminate) λ next. record ws {
  state = next;
  terminated_at = some at;
  volume_id = none;
  task_id = none;
  ssh_host = none;
  share_enabled = none;
  share_enabled_at = none;
}

-- The result when there is a snapshot to restore from.
abbrev restored : Workspace → IsoTimestamp → Result Workspace DomainError
restored ws at = map (transition ws.state undelete) λ next. record ws {
  state = next;
  desired_state = some present;
  delete_requested_at = none;
  terminated_at = none;
  last_activity = at;
}

unfoldable pub undelete_workspace : Workspace → IsoTimestamp → Result Workspace DomainError
undelete_workspace ws at = elim ws.latest_snapshot_id [
  | none ↦ err (conflict (no_retained_snapshot ws.id))
  | some _ ↦ restored ws at
]

abbrev shareable_states : List WorkspaceState
shareable_states = running ∷ idle ∷ provisioning ∷ []

unfoldable pub set_share : Workspace → Bool → IsoTimestamp → Result Workspace DomainError
set_share ws enabled at =
    if enabled && not (includes shareable_states ws.state)
    then err (conflict (cannot_share ws.state))
    else ok (record ws {
      share_enabled = some enabled;
      share_enabled_at = if enabled then some at else none;
    })

unfoldable pub assert_terminable : Workspace → Result Unit DomainError
assert_terminable ws = map (transition ws.state request_delete) λ _. tt

unfoldable pub mark_deleting : Workspace → IsoTimestamp → Result Workspace DomainError
mark_deleting ws at =
    if ws.state == deleting
    then ok ws
    else map (transition ws.state request_delete) λ next. record ws {
      state = next;
      desired_state = some deleted;
      delete_requested_at = some at;
      share_enabled = none;
      share_enabled_at = none;
    }
