-- ===== src/Service/Snapshot.antt =====
-- `snapshot` and `remove` of packages/control-plane/src/workspace-service.ts.
pub mod Bounded
pub mod Recorded
use ecs_dev_desktop.Common.{
  ℕ, zero, suc, String, Bool, true, false, not, Option, none, some, ◌==◌, string_eq, if◌then◌else◌,
}
use ecs_dev_desktop.Result.{Result, ok, err}
use ecs_dev_desktop.Errors.{DomainError, conflict, lost_update, cannot_snapshot, no_active_volume}
use ecs_dev_desktop.States.{WorkspaceId, VolumeId, SnapshotId, IsoTimestamp, deleting, state_eq}
use ecs_dev_desktop.Workspace.{Workspace}
use ecs_dev_desktop.Workspace.Stop.{assert_terminable, mark_deleting}
use ecs_dev_desktop.Workspace.Reports.{record_snapshot}
use ecs_dev_desktop.Service.World.{
  Database, Environment, M, Loaded, pure, ◌>>=◌, clock_now, find, persist_transition,
  session_delete,
}
use ecs_dev_desktop.Service.Stop.{Reply, no_workspace, snapshot_for_transition}
use ecs_dev_desktop.Service.Finish.{Done}
use ecs_dev_desktop.Service.Wake.{is_up}

-- `current.ws.latestSnapshotId === ws.latestSnapshotId`
abbrev pub same_snapshot : Option SnapshotId → Option SnapshotId → Bool
same_snapshot none none = true
same_snapshot (some a) (some b) = a == b
same_snapshot _ _ = false

module _ {d : Database} (e : Environment d) where
  -- After the write of an attempt; a lost write is tried once more.
  abbrev pub settle_attempt : WorkspaceId → Workspace → M d Reply → Bool → M d Reply
  settle_attempt id next again true = pure (ok next)
  settle_attempt id next again false = again

  -- The record is read again in each attempt, and must be live and without another snapshot.
  abbrev pub attempt_on :
      WorkspaceId
      → Option SnapshotId
      → SnapshotId
      → IsoTimestamp
      → M d Reply
      → Option Loaded
      → M d Reply
  attempt_on id before s at again none = pure (no_workspace id)
  attempt_on id before s at again (some l) =
      if not (is_up l.ws.state)
      then pure (err (conflict (cannot_snapshot id l.ws.state)))
      else if not (same_snapshot l.ws.latest_snapshot_id before)
      then pure (err (conflict (lost_update id)))
      else (persist_transition e (record_snapshot l.ws s at) l.version none
          >>= settle_attempt id (record_snapshot l.ws s at) again)

  -- `retries` more attempts after this one.
  unfoldable pub record_attempt :
      ℕ → WorkspaceId → Option SnapshotId → SnapshotId → IsoTimestamp → M d Reply
  unfolding find persist_transition record_snapshot
  record_attempt zero id before s at =
      find e id >>= attempt_on id before s at (pure (err (conflict (lost_update id))))
  record_attempt (suc retries) id before s at =
      find e id >>= attempt_on id before s at (record_attempt retries id before s at)

  abbrev pub record_taken : WorkspaceId → Workspace → Result SnapshotId DomainError → M d Reply
  record_taken id ws (err x) = pure (err x)
  record_taken id ws (ok s) = clock_now e >>= λ at. record_attempt 1 id ws.latest_snapshot_id s at

  abbrev pub snapshot_volume : WorkspaceId → Loaded → Option VolumeId → M d Reply
  snapshot_volume id l none = pure (err (conflict (no_active_volume id)))
  snapshot_volume id l (some volume) =
      snapshot_for_transition e id volume l.version >>= record_taken id l.ws

  unfoldable pub snapshot : WorkspaceId → M d Reply
  unfolding find clock_now snapshot_for_transition
  snapshot id = find e id >>= elim [
    | none ↦ pure (no_workspace id)
    | some l ↦
        if not (is_up l.ws.state)
        then pure (err (conflict (cannot_snapshot id l.ws.state)))
        else snapshot_volume id l l.ws.volume_id
  ]

  abbrev pub commit_delete : WorkspaceId → Loaded → String → Result Workspace DomainError → M d Done
  commit_delete id l actor (err x) = pure (err x)
  commit_delete id l actor (ok next) =
      persist_transition e next l.version (some (session_delete, actor)) >>= λ done.
      pure (if done then ok tt else err (conflict (lost_update id)))

  abbrev pub delete_checked : WorkspaceId → Loaded → String → Result Unit DomainError → M d Done
  delete_checked id l actor (err x) = pure (err x)
  delete_checked id l actor (ok u) =
      clock_now e >>= λ at. commit_delete id l actor (mark_deleting l.ws at)

  unfoldable pub remove : WorkspaceId → String → M d Done
  unfolding find clock_now persist_transition
  remove id actor = find e id >>= elim [
    | none ↦ pure (no_workspace id)
    | some l ↦
        if l.ws.state == deleting
        then pure (ok tt)
        else delete_checked id l actor (assert_terminable l.ws)
  ]
