-- ===== src/Service/Create.antt =====
-- `launchReserved`, `retryPlacement`, `recoverError` and `retry` of
-- packages/control-plane/src/workspace-service.ts.
pub mod Bound
use ecs_dev_desktop.Common.{
  Bool, true, false, not, ◌||◌, Option, none, some, ◌==◌, is_some, if◌then◌else◌,
}
use ecs_dev_desktop.Result.{Result, ok, err}
use ecs_dev_desktop.Errors.{
  DomainError, conflict, lost_update, lost_to, launch_failed, no_retry_due,
}
use ecs_dev_desktop.States.{WorkspaceId, IsoTimestamp, provisioning, state_eq}
use ecs_dev_desktop.Workspace.{Workspace}
use ecs_dev_desktop.Workspace.Launch.{mark_provisioned, placement_due, retry_provisioning}
use ecs_dev_desktop.Workspace.Reports.{mark_recovered}
use ecs_dev_desktop.Service.World.{
  Database, Environment, M, Loaded, Outcome, returned, thrown, unfinished, RunAnswer, placed,
  placement_refused, run_failed, ComputeTask, session_recover, pure, throw, caught, ◌>>=◌,
  clock_now, find, persist_transition, stop_task, run_task,
}
use ecs_dev_desktop.Service.Stop.{Reply, no_workspace, commit_only, system_actor}
use ecs_dev_desktop.Service.Wake.{
  cut_short, wait_for_capacity, record_launch_failure, launch_claimed_wake, start,
}

-- `ws.state !== "provisioning" || ws.taskId !== undefined`
abbrev pub moved_on : Workspace → Bool
moved_on ws = not (ws.state == provisioning) || is_some ws.task_id

module _ {d : Database} (e : Environment d) where
  -- An error of the stop is left to the reaper of orphan tasks.
  abbrev pub stop_leaked : ComputeTask → M d (Unit {0})
  stop_leaked task = caught (stop_task e task.id) >>= λ _. pure tt

  abbrev pub settle_launch : WorkspaceId → ComputeTask → Workspace → Outcome Bool → M d Reply
  settle_launch id task next (returned true) = pure (ok next)
  settle_launch id task next (returned false) =
      stop_leaked task >>= λ _. pure (err (conflict (lost_update id)))
  settle_launch id task next (thrown m) = stop_leaked task >>= λ _. throw m
  settle_launch id task next unfinished = cut_short

  abbrev pub commit_launch :
      WorkspaceId → ComputeTask → Loaded → Result Workspace DomainError → M d Reply
  commit_launch id task l (err x) = pure (err x)
  commit_launch id task l (ok next) =
      caught (persist_transition e next l.version none) >>= settle_launch id task next

  abbrev pub bind_launch : WorkspaceId → ComputeTask → IsoTimestamp → Option Loaded → M d Reply
  bind_launch id task at none = stop_leaked task >>= λ _. pure (no_workspace id)
  bind_launch id task at (some l) =
      if moved_on l.ws
      then (stop_leaked task >>= λ _. pure (err (conflict (lost_to id l.ws.state))))
      else commit_launch id task l (mark_provisioned l.ws task.volume_id task.id at task.ssh_host)

  abbrev pub answer_launch : WorkspaceId → RunAnswer → M d Reply
  answer_launch id (placed task) = clock_now e >>= λ at. find e id >>= bind_launch id task at
  answer_launch id (placement_refused m) = wait_for_capacity e id m
  answer_launch id (run_failed m) = record_launch_failure e id (launch_failed m)

  -- A fresh create hydrates from no snapshot.
  unfoldable pub launch_reserved : WorkspaceId → M d Reply
  unfolding find clock_now run_task stop_task persist_transition wait_for_capacity
      record_launch_failure
  launch_reserved id = find e id >>= elim [
    | none ↦ pure (no_workspace id)
    | some l ↦ if moved_on l.ws then pure (ok l.ws) else (run_task e none >>= answer_launch id)
  ]

  unfoldable pub retry_placement : WorkspaceId → M d Reply
  unfolding find clock_now launch_claimed_wake
  retry_placement id = find e id >>= elim [
    | none ↦ pure (no_workspace id)
    | some l ↦ clock_now e >>= λ now.
        if not (placement_due l.ws now)
        then pure (err (conflict (no_retry_due id)))
        else if is_some l.ws.latest_snapshot_id
        then launch_claimed_wake e id l.ws now system_actor
        else launch_reserved id
  ]

  abbrev pub commit_recovery : WorkspaceId → Loaded → Result Workspace DomainError → M d Reply
  commit_recovery id l (err x) = pure (err x)
  commit_recovery id l (ok next) =
      commit_only e id next l.version (some (session_recover, system_actor))

  unfoldable pub recover_error : WorkspaceId → M d Reply
  unfolding find clock_now persist_transition
  recover_error id = find e id >>= elim [
    | none ↦ pure (no_workspace id)
    | some l ↦ clock_now e >>= λ at. commit_recovery id l (mark_recovered l.ws at)
  ]

  abbrev pub started_after : WorkspaceId → Reply → M d Reply
  started_after id (err x) = pure (err x)
  started_after id (ok ws) = start e id system_actor

  abbrev pub relaunched : WorkspaceId → Reply → M d Reply
  relaunched id (err x) = pure (err x)
  relaunched id (ok ws) = launch_reserved id

  abbrev pub commit_retry : WorkspaceId → Loaded → Result Workspace DomainError → M d Reply
  commit_retry id l (err x) = pure (err x)
  commit_retry id l (ok next) = commit_only e id next l.version none >>= relaunched id

  unfoldable pub retry : WorkspaceId → M d Reply
  unfolding find clock_now start
  retry id = find e id >>= elim [
    | none ↦ pure (no_workspace id)
    | some l ↦
        if is_some l.ws.latest_snapshot_id
        then (recover_error id >>= started_after id)
        else (clock_now e >>= λ at. commit_retry id l (retry_provisioning l.ws at))
  ]
