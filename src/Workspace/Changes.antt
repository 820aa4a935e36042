-- ===== src/Workspace/Changes.antt =====
-- Every change that packages/core/src/domain/workspace.ts can make to a record, as one type with
-- one dispatch over the operations, so that a law may range over all of them.
pub mod Machine
pub mod Binding
pub mod Snapshots
use ecs_dev_desktop.Common.{String, Bool, Option, List, [], ◌∷◌}
use ecs_dev_desktop.Result.{Result, ok, and_then}
use ecs_dev_desktop.Errors.{Message, DomainError}
use ecs_dev_desktop.States.{VolumeId, SnapshotId, TaskId, IsoTimestamp}
use ecs_dev_desktop.Lifecycle.{transition}
use ecs_dev_desktop.Workspace.{Workspace, AgentSession}
use ecs_dev_desktop.Workspace.Stop.{
  FreshSnapshot, mark_stopping, cancel_stopping, mark_stopped, mark_terminated, undelete_workspace,
  set_share, mark_deleting,
}
use ecs_dev_desktop.Workspace.Launch.{
  mark_waking, mark_provisioned, defer_placement, mark_provisioning_failed, retry_provisioning,
}
use ecs_dev_desktop.Workspace.Reports.{
  Probes, record_snapshot, restore_to_snapshot, mark_task_lost, mark_activity, record_functional,
  record_sessions, mark_recovered, mark_snapshot_lost,
}

pub data Change : Type 0 where
  stopping_marked : IsoTimestamp → Option String → Change
  stopping_canceled : IsoTimestamp → Change
  stopped_marked : Option FreshSnapshot → IsoTimestamp → Change
  terminated_marked : IsoTimestamp → Change
  undeleted : IsoTimestamp → Change
  shared : Bool → IsoTimestamp → Change
  deleting_marked : IsoTimestamp → Change
  waking_marked : IsoTimestamp → Change
  provisioned_marked : VolumeId → TaskId → IsoTimestamp → Option String → Change
  placement_deferred : Message → IsoTimestamp → Change
  provisioning_failed : Message → IsoTimestamp → Change
  provisioning_retried : IsoTimestamp → Change
  snapshot_recorded : SnapshotId → IsoTimestamp → Change
  snapshot_restored : SnapshotId → IsoTimestamp → IsoTimestamp → Change
  task_lost : IsoTimestamp → Change
  activity_marked : IsoTimestamp → Change
  functional_recorded : Probes → IsoTimestamp → Change
  sessions_recorded : List AgentSession → IsoTimestamp → Change
  recovered_marked : IsoTimestamp → Change
  snapshot_lost : IsoTimestamp → Change

unfoldable pub apply : Workspace → Change → Result Workspace DomainError
unfolding transition mark_stopping cancel_stopping mark_stopped mark_terminated undelete_workspace
    set_share mark_deleting mark_waking mark_provisioned defer_placement mark_provisioning_failed
    retry_provisioning record_snapshot restore_to_snapshot mark_task_lost mark_activity
    record_functional record_sessions mark_recovered mark_snapshot_lost
apply ws (stopping_marked at by) = mark_stopping ws at by
apply ws (stopping_canceled at) = cancel_stopping ws at
apply ws (stopped_marked fresh at) = mark_stopped ws fresh at
apply ws (terminated_marked at) = mark_terminated ws at
apply ws (undeleted at) = undelete_workspace ws at
apply ws (shared enabled at) = set_share ws enabled at
apply ws (deleting_marked at) = mark_deleting ws at
apply ws (waking_marked at) = mark_waking ws at
apply ws (provisioned_marked volume task at host) = mark_provisioned ws volume task at host
apply ws (placement_deferred reason at) = defer_placement ws reason at
apply ws (provisioning_failed reason at) = mark_provisioning_failed ws reason at
apply ws (provisioning_retried at) = retry_provisioning ws at
apply ws (snapshot_recorded snapshot at) = ok (record_snapshot ws snapshot at)
apply ws (snapshot_restored snapshot taken_at at) = restore_to_snapshot ws snapshot taken_at at
apply ws (task_lost at) = mark_task_lost ws at
apply ws (activity_marked at) = mark_activity ws at
apply ws (functional_recorded probes at) = ok (record_functional ws probes at)
apply ws (sessions_recorded sessions at) = ok (record_sessions ws sessions at)
apply ws (recovered_marked at) = mark_recovered ws at
apply ws (snapshot_lost at) = mark_snapshot_lost ws at

-- One change after another, up to the first that is refused.
unfoldable pub apply_all : Workspace → List Change → Result Workspace DomainError
apply_all ws [] = ok ws
apply_all ws (c ∷ cs) = and_then (apply ws c) (λ w. apply_all w cs)
