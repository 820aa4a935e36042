-- ===== src/Workspace/Tests.antt =====
-- A workspace that goes through its life, and the laws of the record at its states.
use ecs_dev_desktop.Common.{
  ◌≡◌, ◌⊎◌, refl, inl, true, none, some, List, [], ◌∷◌, is_some, arith, Any,
}
use ecs_dev_desktop.Result.{ok, err, is_ok}
use ecs_dev_desktop.Errors.{Message, text, conflict, no_retained_snapshot}
use ecs_dev_desktop.States.{provisioning, running, stopped, SnapshotId, IsoTimestamp}
use ecs_dev_desktop.Lifecycle.{can}
use ecs_dev_desktop.Resources.{
  is_valid_workspace_resource_pair, default_resources_for_editor, assert_valid_workspace_resources,
}
use ecs_dev_desktop.Workspace.{Workspace, ReserveParams, reserve, reserved, healthy}
use ecs_dev_desktop.Workspace.Launch.{placement_due}
use ecs_dev_desktop.Workspace.Changes.{
  Change, apply, apply_all, provisioned_marked, stopped_marked, shared, waking_marked, task_lost,
  deleting_marked, terminated_marked, undeleted,
}
use ecs_dev_desktop.Workspace.Changes.Machine.{Follows, change_event, apply-Follows}
use ecs_dev_desktop.Workspace.Changes.Binding.{IsConsistent, history-IsConsistent}
use ecs_dev_desktop.Workspace.Changes.Snapshots.{
  IsLoss, apply_all-has_snapshot, IsRestored, delete_and_undelete, delete_and_undelete_restores,
}
use ecs_dev_desktop.Workspace.Placement.{defer_all, placement_budget}
use ecs_dev_desktop.Workspace.Leftovers.{
  wake_changes, task_loss_then_wake_keeps_share, restored_wait_is_due,
}

abbrev params : ReserveParams
params = record {
  id = "ws-1";
  owner_id = "u-1";
  owner_email = some "dev@example.org";
  owner_role = none;
  repo_url = none;
  base_image = "node:20";
  editor = none;
  resources = none;
  snapshot_interval_ms = none;
  idle_stop_ms = none;
  always_on = none;
  at = 1000;
}

-- Just reserved; running and shared, with a snapshot; and waiting for capacity on a wake.
abbrev fresh : Workspace
fresh = reserved params (record { cpu_units = 1024; memory_mib = 4096; volume_gib = 8 })

abbrev live : Workspace
live = record fresh {
  state = running;
  volume_id = some "vol-1";
  task_id = some "task-1";
  latest_snapshot_id = some "snap-1";
  latest_snapshot_at = some 2000;
  share_enabled = some true;
  functional = some healthy;
}

abbrev waiting : Workspace
waiting = record fresh {
  latest_snapshot_id = some "snap-1";
  latest_snapshot_at = some 2000;
  placement_attempts = some 1;
  placement_retry_at = some 5000;
}

reserve_default : reserve params ≡ ok fresh
unfolding reserve assert_valid_workspace_resources default_resources_for_editor
    is_valid_workspace_resource_pair
reserve_default = refl

abbrev launch : List Change
launch =
    provisioned_marked "vol-1" "task-1" 2000 none
    ∷ shared true 2100
    ∷ stopped_marked (some (record { id = "snap-1"; at = 3000 })) 3000
    ∷ []

abbrev launched : Workspace
launched = record fresh {
  state = stopped;
  last_activity = 3000;
  latest_snapshot_id = some "snap-1";
  latest_snapshot_at = some 3000;
}

launch_ends : apply_all fresh launch ≡ ok launched
unfolding apply_all apply
launch_ends = refl

history-IsConsistent_example : IsConsistent launched
history-IsConsistent_example =
    history-IsConsistent params fresh launch launched reserve_default launch_ends

apply-Follows_example : Follows (change_event live (task_lost 9)) running stopped
unfolding apply
apply-Follows_example =
    apply-Follows live (task_lost 9)
      (record live {
        state = stopped;
        last_activity = 9;
        volume_id = none;
        task_id = none;
        ssh_host = none;
      })
      refl

apply_all-has_snapshot_example :
    Any IsLoss (waking_marked 4000 ∷ []) ⊎ (is_some {A = SnapshotId} (some "snap-1") ≡ true)
unfolding apply_all apply
apply_all-has_snapshot_example =
    apply_all-has_snapshot launched (waking_marked 4000 ∷ [])
      (record launched { state = provisioning; last_activity = 4000 }) refl refl

delete_and_undelete_restores_example :
    ((w : Workspace) × (apply_all live (delete_and_undelete 1 2 3) ≡ ok w) × IsRestored live w)
    ⊎ ((live.latest_snapshot_id ≡ none)
        × (apply_all live (delete_and_undelete 1 2 3)
            ≡ err (conflict (no_retained_snapshot "ws-1"))))
unfolding can
delete_and_undelete_restores_example = delete_and_undelete_restores live 1 2 3 refl

abbrev two_refusals : List (Message × IsoTimestamp)
two_refusals = (text "no capacity", 1) ∷ (text "no capacity", 20000) ∷ []

placement_budget_example : is_ok (defer_all fresh two_refusals) ≡ true
placement_budget_example = placement_budget fresh two_refusals refl refl refl

task_loss_then_wake_keeps_share_example :
    (w : Workspace) × (apply_all live (task_lost 5 ∷ wake_changes "vol-2" "task-2" 5 none) ≡ ok w)
    × (w.state ≡ running)
    × (w.share_enabled ≡ some true)
    × (w.functional ≡ some healthy)
task_loss_then_wake_keeps_share_example =
    task_loss_then_wake_keeps_share live "vol-2" "task-2" 5 none (inl refl) refl refl

restored_wait_is_due_example :
    (w : Workspace) × (apply_all waiting
        (deleting_marked 6000 ∷ terminated_marked 6000 ∷ undeleted 6000 ∷ waking_marked 6000 ∷ [])
      ≡ ok w)
    × (w.state ≡ provisioning)
    × (placement_due w 7000 ≡ true)
restored_wait_is_due_example =
    restored_wait_is_due waiting 5000 6000 7000 refl refl refl refl (omega arith)
