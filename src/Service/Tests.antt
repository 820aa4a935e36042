-- ===== src/Service/Tests.antt =====
-- A workspace that is stopped and woken through the service, and the laws of the service at it.
use ecs_dev_desktop.Common.{
  ◌≤◌, ℕ, List, ◌+◌, ◌*◌, ◌≡◌, ◌≢◌, string_eq, ◌⊎◌, inr, refl, true, false, none, some, Option, [],
  ◌∷◌, arith,
}
use ecs_dev_desktop.Result.{err}
use ecs_dev_desktop.Errors.{not_found, DomainError, text}
use ecs_dev_desktop.States.{running, stopped, stopping, terminated, error, IsoTimestamp}
use ecs_dev_desktop.Lifecycle.{transition}
use ecs_dev_desktop.Resources.{assert_valid_workspace_resources, is_valid_workspace_resource_pair}
use ecs_dev_desktop.Workspace.{Workspace, ReserveParams, reserved, present, deleted}
use ecs_dev_desktop.Workspace.Stop.{mark_stopped, set_share}
use ecs_dev_desktop.Workspace.Changes.{apply, snapshot_recorded}
use ecs_dev_desktop.Reconciler.{select_idle}
use ecs_dev_desktop.Service.Stop.Window.{short_window_waits, listed_as}
use ecs_dev_desktop.Service.World.{
  Environment, World, Loaded, taken, placed, returned, committed, snapshot_taken, task_stopped,
  session_stop, session_share_enabled, removed, snapshot_deleted, resume, resume, find, clock_now,
  create_snapshot, persist_transition, stop_task, ◌>>=◌,
}
use ecs_dev_desktop.Service.Table.{purging, rows, put}
use ecs_dev_desktop.Service.Stop.{
  stop, stop_loaded, stop_now, commit_stop, snapshot_before_stop, snapshot_for_transition,
  idle_guard,
}
use ecs_dev_desktop.Service.Stop.Order.{IsStopReply, stop_releases_in_order}
use ecs_dev_desktop.Service.Stop.Guard.{idle_stop_skips}
use ecs_dev_desktop.Service.Finish.{finish_reread}
use ecs_dev_desktop.Service.Finish.Waits.{finish_stops_before_commit}
use ecs_dev_desktop.Service.Connect.{connect}
use ecs_dev_desktop.Service.Connect.Ready.{IsConnectReply, connect_hands_back_live}
use ecs_dev_desktop.Service.Create.{launch_reserved}
use ecs_dev_desktop.Service.Create.Bound.{IsLaunchReply, launch_binds_or_stops}
use ecs_dev_desktop.Service.Snapshot.{snapshot}
use ecs_dev_desktop.Service.Snapshot.Recorded.{IsSnapshotReply, snapshot_records_taken}
use ecs_dev_desktop.Service.Share.{share}
use ecs_dev_desktop.Service.Purge.{Tombstone, tombstone_of, purge_tombstone_record}
use ecs_dev_desktop.Service.Purge.Order.{IsPurged, purge_removes_first}
use ecs_dev_desktop.Service.Drift.{restore_snapshot, reconcile_task_loss}
use ecs_dev_desktop.Maintenance.{SnapshotRef}
use ecs_dev_desktop.Workspace.Reports.{restore_to_snapshot, mark_task_lost}
use ecs_dev_desktop.Service.Heartbeat.{heartbeat}
use ecs_dev_desktop.Service.Heartbeat.Writes.{IsBeatReply, heartbeat_writes_once}
use ecs_dev_desktop.Service.Commit.{stale_write_is_refused}
use ecs_dev_desktop.Service.Wake.{start, await_woken, wait_for_capacity}
use ecs_dev_desktop.Service.Wake.Steps.{IsWakeReply}
use ecs_dev_desktop.Service.Wake.Start.{start_binds_or_stops}
use ecs_dev_desktop.Service.Wake.Waiting.{Ends, await_woken-Ends}
use ecs_dev_desktop.Service.Wake.Capacity.{refusal_fails_running}
use ecs_dev_desktop.Service.Patch.{patched, IsUndelete, patched-exact, undelete_keeps_dates}

abbrev params : ReserveParams
params = record {
  id = "ws-1";
  owner_id = "u-1";
  owner_email = none;
  owner_role = none;
  repo_url = none;
  base_image = "node:20";
  editor = none;
  resources = none;
  snapshot_interval_ms = none;
  idle_stop_ms = none;
  always_on = none;
  at = 1000;
}

abbrev live : Workspace
live = record (reserved params (record { cpu_units = 512; memory_mib = 2048; volume_gib = 8 })) {
  state = running;
  volume_id = some "vol-1";
  task_id = some "task-1";
}

abbrev ended : Workspace
ended = record live {
  state = terminated;
  volume_id = none;
  task_id = none;
  desired_state = some deleted;
  delete_requested_at = some 3000;
  terminated_at = some 4000;
  latest_snapshot_id = some "snap-1";
  latest_snapshot_at = some 3500;
}

abbrev snapped : Workspace
snapped = record live {
  latest_snapshot_id = some "snap-1";
  latest_snapshot_at = some 2000;
  last_activity = 2000;
}

patched-exact_example :
    IsUndelete (snapshot_recorded "snap-1" 2000)
    ⊎ (patched snapped live ≡ record snapped { share_enabled_at = none })
unfolding apply
patched-exact_example = patched-exact live (snapshot_recorded "snap-1" 2000) snapped refl

abbrev back : Workspace
back = record ended {
  state = stopped;
  desired_state = some present;
  delete_requested_at = none;
  terminated_at = none;
  last_activity = 5000;
}

undelete_keeps_dates_example :
    (◌≡◌ {A = Option IsoTimestamp} none none)
    × (◌≡◌ {A = Option IsoTimestamp} none none)
    × ((patched back ended).terminated_at ≡ some 4000)
    × ((patched back ended).delete_requested_at ≡ some 3000)
unfolding apply
undelete_keeps_dates_example = undelete_keeps_dates ended 5000 back refl

-- Nobody else writes, and every backend answers; the clock moves by a second at each step.
abbrev calm : Environment rows
calm = record {
  others = λ n t. t;
  now = λ n. 10000 + 1000 * n;
  snapshots = λ n volume. taken "snap-2";
  runs = λ n snapshot. placed (record { id = "task-2"; volume_id = "vol-2"; ssh_host = none });
  stops = λ n task. none;
  lag = λ n. n;
  lag_mono = λ n. omega arith;
}

abbrev holding : Loaded → World rows
holding l = record { table = put (λ id. none) "ws-1" l; step = 0; slept_ms = 0; trace = [] }

abbrev live_row : Loaded
live_row = record { ws = live; version = 1 }

stop_releases_in_order_example :
    IsStopReply
      (stop calm "ws-1" "u-1" none (holding live_row)).0
      (stop calm "ws-1" "u-1" none (holding live_row)).1.trace
stop_releases_in_order_example = stop_releases_in_order calm "ws-1" "u-1" none (holding live_row) tt

-- What the run above does.
stop_effects :
    (stop calm "ws-1" "u-1" none (holding live_row)).1.trace
    ≡ task_stopped "task-1"
      ∷ committed
          (record live {
            state = stopped;
            last_activity = 11000;
            volume_id = none;
            task_id = none;
            latest_snapshot_id = some "snap-2";
            latest_snapshot_at = some 11000;
          })
          1
          (some (session_stop, "u-1"))
      ∷ snapshot_taken "vol-1" "snap-2"
      ∷ []
unfolding stop stop_loaded stop_now commit_stop snapshot_before_stop snapshot_for_transition
    idle_guard find clock_now create_snapshot persist_transition stop_task mark_stopped transition
    assert_valid_workspace_resources is_valid_workspace_resource_pair ◌>>=◌
stop_effects = refl

idle_stop_skips_example :
    (x : DomainError) × ((stop_loaded calm "ws-1" live_row "system"
        (some 60000)
        (holding live_row)).0
      ≡ returned (err x))
    × ((stop_loaded calm "ws-1" live_row "system" (some 60000) (holding live_row)).1.table
        ≡ (holding live_row).table)
    × ((stop_loaded calm "ws-1" live_row "system" (some 60000) (holding live_row)).1.trace ≡ [])
idle_stop_skips_example =
    idle_stop_skips calm "ws-1" live_row "system" 60000 (holding live_row) (inr (omega arith))

abbrev asleep : Loaded
asleep = record {
  ws = record live {
    state = stopped;
    volume_id = none;
    task_id = none;
    latest_snapshot_id = some "snap-1";
    latest_snapshot_at = some 3000;
  };
  version = 4;
}

start_binds_or_stops_example :
    IsWakeReply
      (start calm "ws-1" "u-1" (holding asleep)).0
      (start calm "ws-1" "u-1" (holding asleep)).1.trace
start_binds_or_stops_example = start_binds_or_stops calm "ws-1" "u-1" (holding asleep) (tt, refl)

await_woken-Ends_example : Ends (await_woken calm "ws-1" (holding asleep)).0
await_woken-Ends_example = await_woken-Ends calm "ws-1" (holding asleep)

abbrev ending : Loaded
ending = record {
  ws = record live { state = stopping; stop_requested_at = some 9000 };
  version = 2;
}

-- A write of another process comes before each step.
abbrev busy : Environment rows
busy = record calm { others = λ n t. put t "ws-1" (record { ws = ending.ws; version = 7 }) }

finish_stops_before_commit_example :
    (finish_reread busy "ws-1" none 9900 (some ending) (holding ending)).1.trace
    ≡ task_stopped "task-1" ∷ []
finish_stops_before_commit_example =
    finish_stops_before_commit busy "ws-1" ending "task-1" none 9900 (holding ending) refl refl refl
      (λ f. refl)

refusal_fails_running_example :
    (next : Workspace) × ((wait_for_capacity calm "ws-1"
        (text "no capacity")
        (holding live_row)).1.trace
      ≡ committed next 1 none ∷ [])
    × (next.state ≡ error)
    × (next.task_id ≡ some "task-1")
unfolding assert_valid_workspace_resources is_valid_workspace_resource_pair
refusal_fails_running_example =
    refusal_fails_running calm "ws-1" live_row (text "no capacity") (holding live_row) refl refl
      (λ f. (_, refl)) refl refl

connect_hands_back_live_example :
    IsConnectReply
      (connect calm "ws-1" "u-1" (holding asleep)).0
      (connect calm "ws-1" "u-1" (holding asleep)).1.trace
connect_hands_back_live_example =
    connect_hands_back_live calm "ws-1" "u-1" (holding asleep) (tt, refl)

abbrev new_row : Loaded
new_row = record {
  ws = reserved params (record { cpu_units = 512; memory_mib = 2048; volume_gib = 8 });
  version = 1;
}

launch_binds_or_stops_example :
    IsLaunchReply
      (launch_reserved calm "ws-1" (holding new_row)).0
      (launch_reserved calm "ws-1" (holding new_row)).1.trace
launch_binds_or_stops_example = launch_binds_or_stops calm "ws-1" (holding new_row) (tt, refl)

snapshot_records_taken_example :
    IsSnapshotReply
      (snapshot calm "ws-1" (holding live_row)).0
      (snapshot calm "ws-1" (holding live_row)).1.trace
    × ((snapshot calm "ws-1" (holding live_row)).1.step ≤ (holding live_row).step + 8)
snapshot_records_taken_example = snapshot_records_taken calm "ws-1" (holding live_row)

heartbeat_writes_once_example :
    IsBeatReply []
      (heartbeat calm "ws-1" none (holding live_row)).0
      (heartbeat calm "ws-1" none (holding live_row)).1.trace
heartbeat_writes_once_example = heartbeat_writes_once calm "ws-1" none (holding live_row)

stale_write_is_refused_example :
    ((persist_transition calm live 1 none
        (persist_transition calm snapped 1 none (holding live_row)).1).0
      ≢ returned true)
    × ((persist_transition calm live 1 none
          (persist_transition calm snapped 1 none (holding live_row)).1).1.table
        ≡ (resume calm (persist_transition calm snapped 1 none (holding live_row)).1).table)
    × ((persist_transition calm live 1 none
          (persist_transition calm snapped 1 none (holding live_row)).1).1.trace
        ≡ (persist_transition calm snapped 1 none (holding live_row)).1.trace)
unfolding persist_transition
stale_write_is_refused_example =
    stale_write_is_refused calm snapped live 1 1 none none (holding live_row)
      (persist_transition calm snapped 1 none (holding live_row)).1 refl (omega arith) refl
      (λ before after p q. let same : before ≡ after = cc in rw same (omega arith))

abbrev hasty : Loaded
hasty = record { ws = record live { idle_stop_ms = some 2000 }; version = 1 }

short_window_waits_example :
    (select_idle (listed_as "ws-1" hasty ∷ []) 10000 60000 ≡ "ws-1" ∷ [])
    × (x : DomainError) × ((stop_loaded calm "ws-1" hasty "system" (some 60000) (holding hasty)).0
        ≡ returned (err x))
    × ((stop_loaded calm "ws-1" hasty "system" (some 60000) (holding hasty)).1.table
        ≡ (holding hasty).table)
short_window_waits_example =
    short_window_waits calm "ws-1" hasty "system" 2000 60000 (holding hasty) refl refl (omega arith)
      (omega arith)

-- The owner starts to share a running workspace: one write, with its audit entry.
share_effects :
    (share calm "ws-1" true (some "u-1") (holding live_row)).1.trace
    ≡ committed
        (record live { share_enabled = some true; share_enabled_at = some 11000 })
        1
        (some (session_share_enabled, "u-1"))
      ∷ []
unfolding share find clock_now persist_transition set_share ◌>>=◌ assert_valid_workspace_resources
    is_valid_workspace_resource_pair
share_effects = refl

abbrev ended_row : Loaded
ended_row = record { ws = ended; version = 4 }

share_needs_session : (share calm "ws-1" true none (holding ended_row)).1.trace ≡ []
unfolding share find clock_now persist_transition set_share ◌>>=◌ assert_valid_workspace_resources
    is_valid_workspace_resource_pair
share_needs_session = refl

abbrev tombstone : Tombstone
tombstone =
    tombstone_of (record {
      ws = record ended { id = "ws-1"; latest_snapshot_id = some "snap-2" };
      version = 4;
    })

abbrev buried : World rows
buried =
    holding (record {
      ws = record ended { id = "ws-1"; latest_snapshot_id = some "snap-2" };
      version = 4;
    })

purge_effects :
    (purge_tombstone_record calm purging tombstone "u-1" buried).1.trace
    ≡ snapshot_deleted "snap-2" ∷ removed "ws-1" 4 "u-1" ∷ []
unfolding purge_tombstone_record ◌>>=◌
purge_effects = refl

purge_removes_first_example :
    IsPurged rows tombstone "u-1"
      (resume calm buried).table
      buried.trace
      (purge_tombstone_record calm purging tombstone "u-1" buried).0
      (purge_tombstone_record calm purging tombstone "u-1" buried).1.trace
purge_removes_first_example = purge_removes_first calm purging tombstone "u-1" buried

-- Of two snapshots one is of another workspace.
abbrev listed : ℕ → List SnapshotRef
listed n =
    record {
      id = "snap-8";
      created_at = 500;
      source_volume_id = "vol-8";
      retained = none;
      workspace_id = some "ws-8";
      size_gib = none;
    }
    ∷ record {
      id = "snap-0";
      created_at = 400;
      source_volume_id = "vol-0";
      retained = none;
      workspace_id = some "ws-1";
      size_gib = none;
    }
    ∷ []

foreign_snapshot_not_found :
    (restore_snapshot calm listed (λ n task. true) "ws-1" "snap-8" none (holding asleep)).0
    ≡ returned (err (not_found "snapshot" "snap-8"))
unfolding restore_snapshot find clock_now persist_transition ◌>>=◌ restore_to_snapshot
    assert_valid_workspace_resources is_valid_workspace_resource_pair
foreign_snapshot_not_found = refl

lost_task_stops :
    (reconcile_task_loss calm listed (λ n task. false) "ws-1" (holding live_row)).1.trace
    ≡ committed
        (record live { state = error; last_activity = 12000; volume_id = none; task_id = none })
        1
        (some (session_stop, "system:drift"))
      ∷ []
unfolding reconcile_task_loss find clock_now persist_transition ◌>>=◌ mark_task_lost
    assert_valid_workspace_resources is_valid_workspace_resource_pair
lost_task_stops = refl
