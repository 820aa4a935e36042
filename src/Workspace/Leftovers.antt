-- ===== src/Workspace/Leftovers.antt =====
-- What a record keeps past the session that it described, and how that shows after a wake:
-- packages/core/src/domain/workspace.ts.
use ecs_dev_desktop.Common.{
  ◌≤◌, ◌≡◌, refl, true, Option, none, some, List, [], ◌∷◌, is_some, arith, String, ◌⊎◌, or_option,
}
use ecs_dev_desktop.Result.{ok}
use ecs_dev_desktop.States.{VolumeId, TaskId, IsoTimestamp, provisioning, running, idle}
use ecs_dev_desktop.Workspace.{Workspace, present}
use ecs_dev_desktop.Workspace.Stop.{FreshSnapshot, fresh_id, fresh_at}
use ecs_dev_desktop.Workspace.Launch.{placement_due}
use ecs_dev_desktop.Workspace.Changes.{
  Change, apply, apply_all, stopped_marked, terminated_marked, deleting_marked, undeleted,
  waking_marked, provisioned_marked, task_lost,
}

-- A wake: the claim and the binding of the new task.
abbrev pub wake_changes : VolumeId → TaskId → IsoTimestamp → Option String → List Change
wake_changes volume task at host = waking_marked at ∷ provisioned_marked volume task at host ∷ []

module _ (ws : Workspace) (volume : VolumeId) (task : TaskId) (at : IsoTimestamp)
    (host : Option String) where
  abbrev woken : Workspace → Workspace
  woken old = record old {
    state = running;
    last_activity = at;
    volume_id = some volume;
    task_id = some task;
    ssh_host = host;
    placement_reason = none;
    placement_attempts = none;
    placement_retry_at = none;
  }

  -- A running or idle session that is stopped and woken again is shared with nobody, and carries no
  -- report of the old desktop, whatever it carried before.
  pub stop_then_wake_is_fresh :
      (fresh : Option FreshSnapshot)
      → (ws.state ≡ running) ⊎ (ws.state ≡ idle)
      → (w : Workspace) × (apply_all ws (stopped_marked fresh at ∷ wake_changes volume task at host)
          ≡ ok w)
        × (w.state ≡ running)
        × (w.share_enabled ≡ none)
        × (w.functional ≡ none)
  unfolding apply_all apply
  stop_then_wake_is_fresh fresh h = (
    woken (record ws {
      latest_snapshot_id = or_option (fresh_id fresh) ws.latest_snapshot_id;
      latest_snapshot_at = or_option (fresh_at fresh) ws.latest_snapshot_at;
      stop_requested_at = none;
      stop_requested_by = none;
      share_enabled = none;
      share_enabled_at = none;
      functional = none;
      functional_detail = none;
      functional_at = none;
    }),
    ground arith,
    refl,
    refl,
    refl,
  )

  -- A running or idle session whose task is lost, and which has a snapshot, is woken with the sharing
  -- and the report of the lost session still on the record: no owner has shared the new session.
  pub task_loss_then_wake_keeps_share :
      (ws.state ≡ running) ⊎ (ws.state ≡ idle)
      → is_some ws.task_id ≡ true
      → is_some ws.latest_snapshot_id ≡ true
      → (w : Workspace) × (apply_all ws (task_lost at ∷ wake_changes volume task at host) ≡ ok w)
        × (w.state ≡ running)
        × (w.share_enabled ≡ ws.share_enabled)
        × (w.functional ≡ ws.functional)
  unfolding apply_all apply
  task_loss_then_wake_keeps_share h b s = (woken ws, ground arith, refl, refl, refl)

-- A workspace that waits for capacity with a snapshot, and is deleted, restored and started again,
-- has a placement retry due as soon as its new launch is claimed: at every time from the old retry
-- time on, while the launch that claimed it is still under way.
pub restored_wait_is_due :
    (ws : Workspace) (retry_at at now : IsoTimestamp)
    → ws.state ≡ provisioning
    → ws.task_id ≡ none
    → is_some ws.latest_snapshot_id ≡ true
    → ws.placement_retry_at ≡ some retry_at
    → retry_at ≤ now
    → (w : Workspace) × (apply_all ws
          (deleting_marked at ∷ terminated_marked at ∷ undeleted at ∷ waking_marked at ∷ [])
        ≡ ok w)
      × (w.state ≡ provisioning)
      × (placement_due w now ≡ true)
unfolding apply_all apply placement_due
restored_wait_is_due ws retry_at at now p t s r h = (
  record ws {
    state = provisioning;
    desired_state = some present;
    delete_requested_at = none;
    terminated_at = none;
    last_activity = at;
    volume_id = none;
    task_id = none;
    ssh_host = none;
    share_enabled = none;
    share_enabled_at = none;
  },
  ground arith,
  refl,
  ground arith,
)
