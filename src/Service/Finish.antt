-- ===== src/Service/Finish.antt =====
-- `finishStop` of packages/control-plane/src/workspace-service.ts: the end of a stop that a user
-- asked for, run again and again by the reconciler until the grace has passed.
pub mod Waits
use ecs_dev_desktop.Common.{
  ℕ, ◌+◌, String, Bool, true, false, Option, none, some, ◌==◌, ltb, or_else, if◌then◌else◌,
}
use ecs_dev_desktop.Result.{Result, ok, err}
use ecs_dev_desktop.Errors.{Message, DomainError, conflict, lost_update}
use ecs_dev_desktop.States.{WorkspaceId, TaskId, IsoTimestamp, stopped, stopping, state_eq}
use ecs_dev_desktop.Workspace.{Workspace}
use ecs_dev_desktop.Workspace.Stop.{FreshSnapshot, mark_stopped}
use ecs_dev_desktop.Service.World.{
  Database, Environment, M, Loaded, SnapshotAnswer, taken, gone, storage_failed, session_stop, pure,
  throw, ◌>>=◌, clock_now, find, persist_transition, create_snapshot, stop_task,
}
use ecs_dev_desktop.Service.Stop.{system_actor, default_stop_grace_ms}

abbrev pub Done : Type 0
Done = Result (Unit {0}) DomainError

-- `elapsedMs < DEFAULT_STOP_GRACE_MS`, where a record without the time of the request has waited for
-- ever.
abbrev pub in_grace : Option IsoTimestamp → IsoTimestamp → Bool
in_grace none now = false
in_grace (some asked) now = ltb now (asked + default_stop_grace_ms)

abbrev is_stopped : Option Loaded → Bool
is_stopped none = false
is_stopped (some l) = l.ws.state == stopped

module _ {d : Database} (e : Environment d) where
  -- A volume that is gone gives no snapshot, and the stop goes on without one.
  abbrev pub fresh_from : IsoTimestamp → SnapshotAnswer → M d (Option FreshSnapshot)
  fresh_from at (taken s) = pure (some (record { id = s; at = at }))
  fresh_from at gone = pure none
  fresh_from at (storage_failed m) = throw m

  abbrev pub final_snapshot : Workspace → IsoTimestamp → M d (Option FreshSnapshot)
  final_snapshot ws at = elim ws.volume_id [
    | none ↦ pure none
    | some volume ↦ create_snapshot e volume >>= fresh_from at
  ]

  abbrev pub stop_bound : Option TaskId → M d (Unit {0})
  stop_bound none = pure tt
  stop_bound (some task) = stop_task e task

  abbrev pub commit_finished : WorkspaceId → Loaded → Result Workspace DomainError → M d Done
  commit_finished id l (err x) = pure (err x)
  commit_finished id l (ok next) = do
    done ←
        persist_transition e next l.version
          (some (session_stop, or_else l.ws.stop_requested_by system_actor))
    if done
        then pure (ok tt)
        else find e id >>= λ now.
            pure (if is_stopped now then ok tt else err (conflict (lost_update id)))

  -- The record as it is after the snapshot decides: only if it is still stopping is the task stopped.
  unfoldable pub finish_reread :
      WorkspaceId → Option FreshSnapshot → IsoTimestamp → Option Loaded → M d Done
  unfolding persist_transition stop_task find
  finish_reread id fresh at none = pure (ok tt)
  finish_reread id fresh at (some l) =
      if l.ws.state == stopping
      then (stop_bound l.ws.task_id >>= λ _. commit_finished id l (mark_stopped l.ws fresh at))
      else pure (ok tt)

  unfoldable pub finish_now : WorkspaceId → Loaded → M d Done
  unfolding clock_now create_snapshot find
  finish_now id l = do
    at ← clock_now e
    fresh ← final_snapshot l.ws at
    current ← find e id
    finish_reread id fresh at current

  -- The grace is read only if it is not ignored.
  unfoldable pub finish_loaded : WorkspaceId → Loaded → Bool → M d Done
  unfolding clock_now
  finish_loaded id l true = finish_now id l
  finish_loaded id l false = elim l.ws.stop_requested_at [
    | none ↦ finish_now id l
    | some asked ↦
        clock_now e >>= λ now. if in_grace (some asked) now then pure (ok tt) else finish_now id l
  ]

  unfoldable pub finish_stop : WorkspaceId → Bool → M d Done
  unfolding find
  finish_stop id ignore_grace = find e id >>= elim [
    | none ↦ pure (ok tt)
    | some l ↦ if l.ws.state == stopping then finish_loaded id l ignore_grace else pure (ok tt)
  ]
