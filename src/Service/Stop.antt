-- ===== src/Service/Stop.antt =====
-- `stop`, `requestStop` and `cancelStop` of
-- packages/control-plane/src/workspace-service.ts. The DTO that a call returns is a projection of a
-- record; the model returns the record.
pub mod Guard
pub mod Window
pub mod Order
use Prim.Native.Nat.{max}
use ecs_dev_desktop.Common.{
  ℕ, ◌+◌, ◌-◌, ◌*◌, String, Bool, true, false, not, ◌||◌, Option, none, some, ◌==◌, nat_eq, ltb,
  or_else, if◌then◌else◌,
}
use ecs_dev_desktop.Result.{Result, ok, err}
use ecs_dev_desktop.Errors.{
  Message, DomainError, conflict, not_found, lost_update, lost_to, always_on_skipped,
  recently_active,
}
use ecs_dev_desktop.States.{
  WorkspaceId, VolumeId, SnapshotId, TaskId, IsoTimestamp, WorkspaceState, running, idle, stopped,
  WorkspaceEvent, state_eq,
}
use ecs_dev_desktop.Lifecycle.{transition}
use ecs_dev_desktop.Workspace.{Workspace}
use ecs_dev_desktop.Workspace.Stop.{FreshSnapshot, mark_stopping, cancel_stopping, mark_stopped}
use ecs_dev_desktop.Service.World.{
  Database, Environment, M, Loaded, SnapshotAnswer, taken, gone, storage_failed, session_stop,
  session_recover, AuditAction, pure, throw, caught, ◌>>=◌, clock_now, find, persist_transition,
  create_snapshot, stop_task,
}

abbrev pub system_actor : String
system_actor = "system"

-- `DEFAULT_STOP_GRACE_MS`
abbrev pub default_stop_grace_ms : ℕ
default_stop_grace_ms = 6 * 1000

abbrev pub Reply : Type 0
Reply = Result Workspace DomainError

abbrev pub no_workspace : {A : Type 0} → WorkspaceId → Result A DomainError
no_workspace id = err (not_found "workspace" id)

-- `current?.version !== version`
abbrev pub version_moved : Option Loaded → ℕ → Bool
version_moved none version = true
version_moved (some l) version = not (l.version == version)

abbrev pub is_gone : SnapshotAnswer → Bool
is_gone gone = true
is_gone _ = false

-- `ws.alwaysOn === true`
abbrev pub is_always_on : Option Bool → Bool
is_always_on none = false
is_always_on (some b) = b

-- How long the workspace must have been idle.
abbrev pub required_ms : ℕ → Workspace → ℕ
required_ms ms ws = max ms (or_else ws.idle_stop_ms 0)

module _ {d : Database} (e : Environment d) where
  abbrev pub settle_snapshot :
      WorkspaceId → ℕ → SnapshotAnswer → Message → M d (Result SnapshotId DomainError)
  settle_snapshot id version answer m = do
    current ← find e id
    if is_gone answer || version_moved current version
        then pure (err (conflict (lost_update id)))
        else throw m

  unfoldable pub snapshot_for_transition :
      WorkspaceId → VolumeId → ℕ → M d (Result SnapshotId DomainError)
  snapshot_for_transition id volume version = do
    answer ← create_snapshot e volume
    elim answer [
      | taken s ↦ pure (ok s)
      | gone ↦ settle_snapshot id version gone (lost_update id)
      | storage_failed m ↦ settle_snapshot id version (storage_failed m) m
    ]

  -- The snapshot before a teardown, if there is a live volume.
  unfoldable pub snapshot_before_stop :
      WorkspaceId → Workspace → ℕ → IsoTimestamp → M d (Result (Option FreshSnapshot) DomainError)
  unfolding snapshot_for_transition
  snapshot_before_stop id ws version at = elim ws.volume_id [
    | none ↦ pure (ok none)
    | some volume ↦
        snapshot_for_transition id volume version
        >>= elim [ ok s ↦ pure (ok (some (record { id = s; at = at }))) | err x ↦ pure (err x) ]
  ]

  -- The recency guard of the idle sweep: `none` lets the stop go on.
  unfoldable pub idle_guard : WorkspaceId → Workspace → Option ℕ → M d (Option DomainError)
  unfolding clock_now
  idle_guard id ws none = pure none
  idle_guard id ws (some ms) =
      if is_always_on ws.always_on
      then pure (some (conflict (always_on_skipped id)))
      else clock_now e >>= λ now. pure (
          if ltb now (ws.last_activity + required_ms ms ws)
          then some (conflict (recently_active id (now - ws.last_activity)))
          else none)

  abbrev pub stop_best_effort : Option TaskId → M d Unit
  stop_best_effort none = pure tt
  stop_best_effort (some task) = caught (stop_task e task) >>= λ _. pure tt

  -- After a lost race the outcome stands if the record is stopped anyway.
  abbrev pub stopped_anyway : WorkspaceId → M d Reply
  stopped_anyway id = find e id >>= elim [
    | none ↦ pure (no_workspace id)
    | some l ↦
        if l.ws.state == stopped
        then pure (ok l.ws)
        else pure (err (conflict (lost_to id l.ws.state)))
  ]

  -- Persist first, then release the task.
  unfoldable pub commit_stop : WorkspaceId → Loaded → Workspace → String → M d Reply
  unfolding persist_transition stop_task find
  commit_stop id l next actor = do
    done ← persist_transition e next l.version (some (session_stop, actor))
    if done then (stop_best_effort l.ws.task_id >>= λ _. pure (ok next)) else stopped_anyway id

  abbrev pub commit_marked :
      WorkspaceId → Loaded → String → Result Workspace DomainError → M d Reply
  commit_marked id l actor (err x) = pure (err x)
  commit_marked id l actor (ok next) = commit_stop id l next actor

  unfoldable pub stop_now : WorkspaceId → Loaded → String → M d Reply
  unfolding clock_now
  stop_now id l actor = do
    at ← clock_now e
    snapped ← snapshot_before_stop id l.ws l.version at
    elim snapped [
      | err x ↦ pure (err x)
      | ok fresh ↦ commit_marked id l actor (mark_stopped l.ws fresh at)
    ]

  abbrev pub validated :
      WorkspaceId → Loaded → String → Option ℕ → Result WorkspaceState DomainError → M d Reply
  validated id l actor require_idle_for_ms (err x) = pure (err x)
  validated id l actor require_idle_for_ms (ok _) =
      idle_guard id l.ws require_idle_for_ms
      >>= elim [ some x ↦ pure (err x) | none ↦ stop_now id l actor ]

  unfoldable pub stop_loaded : WorkspaceId → Loaded → String → Option ℕ → M d Reply
  stop_loaded id l actor require_idle_for_ms =
      validated id l actor require_idle_for_ms (transition l.ws.state WorkspaceEvent.stop)

  unfoldable pub stop : WorkspaceId → String → Option ℕ → M d Reply
  unfolding find
  stop id actor require_idle_for_ms = find e id >>= elim [
    | none ↦ pure (no_workspace id)
    | some l ↦ stop_loaded id l actor require_idle_for_ms
  ]

  -- A write with no effect after it.
  abbrev pub commit_only : WorkspaceId → Workspace → ℕ → Option (AuditAction × String) → M d Reply
  commit_only id next version audit = do
    done ← persist_transition e next version audit
    if done then pure (ok next) else pure (err (conflict (lost_update id)))

  unfoldable pub request_stop : WorkspaceId → String → M d Reply
  unfolding find persist_transition clock_now
  request_stop id actor = find e id >>= elim [
    | none ↦ pure (no_workspace id)
    | some l ↦ clock_now e >>= λ at. elim (mark_stopping l.ws at (some actor)) [
      | err x ↦ pure (err x)
      | ok next ↦ commit_only id next l.version none
    ]
  ]

  unfoldable pub cancel_stop : WorkspaceId → String → M d Reply
  unfolding find persist_transition clock_now
  cancel_stop id actor = find e id >>= elim [
    | none ↦ pure (no_workspace id)
    | some l ↦
        if l.ws.state == running || l.ws.state == idle
        then pure (ok l.ws)
        else clock_now e >>= λ at. elim (cancel_stopping l.ws at) [
          | err x ↦ pure (err x)
          | ok next ↦ commit_only id next l.version (some (session_recover, actor))
        ]
  ]
