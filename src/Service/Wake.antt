-- ===== src/Service/Wake.antt =====
-- `start`, `awaitWoken`, `rollbackWake`, `launchClaimedWake`, `waitForCapacity` and
-- `recordLaunchFailure` of packages/control-plane/src/workspace-service.ts.
pub mod Capacity
pub mod Start
pub mod Waiting
pub mod Steps
pub mod Launches
use ecs_dev_desktop.Common.{
  ℕ, zero, suc, ◌+◌, ◌*◌, String, Bool, true, false, not, ◌||◌, Option, none, some, ◌==◌, leb,
  is_some, if◌then◌else◌,
}
use ecs_dev_desktop.Result.{Result, ok, err}
use ecs_dev_desktop.Errors.{
  Message, DomainError, not_found, conflict, invalid, unavailable, lost_update, lost_to,
  no_snapshot_to_hydrate, wake_incomplete, wake_timed_out, launch_failed, no_retry_due,
}
use ecs_dev_desktop.States.{
  WorkspaceId, TaskId, IsoTimestamp, WorkspaceState, provisioning, running, idle, state_eq,
}
use ecs_dev_desktop.Workspace.{Workspace}
use ecs_dev_desktop.Workspace.Stop.{mark_stopped}
use ecs_dev_desktop.Workspace.Launch.{
  mark_waking, mark_provisioned, defer_placement, placement_due, mark_provisioning_failed,
}
use ecs_dev_desktop.Service.World.{
  Database, Environment, M, Loaded, Outcome, returned, thrown, unfinished, RunAnswer, placed,
  placement_refused, run_failed, ComputeTask, session_start, pure, throw, caught, ◌>>=◌, clock_now,
  find, persist_transition, stop_task, run_task, date_now, sleep,
}
use ecs_dev_desktop.Service.Stop.{Reply, no_workspace, commit_only, system_actor}

abbrev pub wake_wait_timeout_ms : ℕ
wake_wait_timeout_ms = 180 * 1000

abbrev pub wake_poll_interval_ms : ℕ
wake_poll_interval_ms = 250

-- Polls of a wait for another caller's wake: enough for the time-out.
abbrev pub wake_fuel : ℕ
wake_fuel = 721

abbrev pub is_up : WorkspaceState → Bool
is_up s = s == running || s == idle

-- Why the wait is given up.
abbrev pub refusal_reason : DomainError → Message → Message
refusal_reason (conflict m) refusal = m
refusal_reason _ refusal = launch_failed refusal

module _ {d : Database} where
  -- After a wake that lost its write, the record as it is now.
  abbrev pub woken_anyway : WorkspaceId → Option Loaded → M d Reply
  woken_anyway id none = pure (no_workspace id)
  woken_anyway id (some l) =
      if is_up l.ws.state then pure (ok l.ws) else pure (err (conflict (lost_to id l.ws.state)))

  -- A wait that ran out of fuel has no value to go on with.
  abbrev pub cut_short : M d Reply
  cut_short w = (unfinished, w)

module _ {d : Database} (e : Environment d) where
  -- One pass of the loop; `again` is the next one, after the sleep.
  abbrev pub poll_woken : WorkspaceId → ℕ → M d Reply → Option Loaded → M d Reply
  poll_woken id deadline again none = pure (no_workspace id)
  poll_woken id deadline again (some l) =
      if is_up l.ws.state
      then pure (ok l.ws)
      else if not (l.ws.state == provisioning)
      then pure (err (conflict (wake_incomplete id l.ws.state)))
      else (date_now e >>= λ now.
          if leb deadline now
          then pure (err (conflict (wake_timed_out id)))
          else (sleep e wake_poll_interval_ms >>= λ _. again))

  unfoldable pub poll_until : ℕ → WorkspaceId → ℕ → M d Reply
  unfolding find date_now sleep
  poll_until zero id deadline w = (unfinished, w)
  poll_until (suc n) id deadline w =
      (find e id >>= poll_woken id deadline (poll_until n id deadline)) w

  unfoldable pub await_woken : WorkspaceId → M d Reply
  unfolding date_now
  await_woken id = date_now e >>= λ now. poll_until wake_fuel id (now + wake_wait_timeout_ms)

  abbrev pub revert : Loaded → Result Workspace DomainError → M d (Unit {0})
  revert l (err x) = pure tt
  revert l (ok next) = persist_transition e next l.version none >>= λ _. pure tt

  unfoldable pub rollback_wake : WorkspaceId → M d (Unit {0})
  unfolding find clock_now persist_transition
  rollback_wake id = find e id >>= elim [
    | none ↦ pure tt
    | some l ↦
        if l.ws.state == provisioning
        then (clock_now e >>= λ at. revert l (mark_stopped l.ws none at))
        else pure tt
  ]

  -- The error of the launch is returned whether its record wins the write or not.
  abbrev pub commit_failure : Message → Loaded → Result Workspace DomainError → M d Reply
  commit_failure reason l (err x) = pure (err x)
  commit_failure reason l (ok next) =
      persist_transition e next l.version none >>= λ _. pure (err (unavailable reason))

  unfoldable pub record_launch_failure : WorkspaceId → Message → M d Reply
  unfolding find clock_now persist_transition
  record_launch_failure id reason = find e id >>= elim [
    | none ↦ pure (no_workspace id)
    | some l ↦
        clock_now e >>= λ at. commit_failure reason l (mark_provisioning_failed l.ws reason at)
  ]

  abbrev pub give_up : WorkspaceId → Workspace → Message → M d Reply
  give_up id ws why =
      if is_some ws.latest_snapshot_id
      then (rollback_wake id >>= λ _. pure (err (unavailable why)))
      else record_launch_failure id why

  abbrev pub commit_wait : WorkspaceId → Loaded → Message → Result Workspace DomainError → M d Reply
  commit_wait id l refusal (err x) = give_up id l.ws (refusal_reason x refusal)
  commit_wait id l refusal (ok next) = commit_only e id next l.version none

  unfoldable pub wait_for_capacity : WorkspaceId → Message → M d Reply
  unfolding find clock_now persist_transition rollback_wake record_launch_failure
  wait_for_capacity id refusal = find e id >>= elim [
    | none ↦ pure (no_workspace id)
    | some l ↦ clock_now e >>= λ now. commit_wait id l refusal (defer_placement l.ws refusal now)
  ]

  -- How the commit of the launched task ended; a task that is not bound is stopped.
  abbrev pub settle_wake : WorkspaceId → ComputeTask → Workspace → Outcome Bool → M d Reply
  settle_wake id task next (returned true) = pure (ok next)
  settle_wake id task next (returned false) =
      stop_task e task.id >>= λ _. find e id >>= woken_anyway id
  settle_wake id task next (thrown m) =
      stop_task e task.id >>= λ _. rollback_wake id >>= λ _. throw m
  settle_wake id task next unfinished = cut_short

  abbrev pub commit_wake :
      WorkspaceId → ComputeTask → String → Loaded → Result Workspace DomainError → M d Reply
  commit_wake id task actor l (err x) = stop_task e task.id >>= λ _. pure (err x)
  commit_wake id task actor l (ok next) =
      caught (persist_transition e next l.version (some (session_start, actor)))
      >>= settle_wake id task next

  abbrev pub bind_wake :
      WorkspaceId → ComputeTask → IsoTimestamp → String → Option Loaded → M d Reply
  bind_wake id task at actor none = stop_task e task.id >>= λ _. pure (no_workspace id)
  bind_wake id task at actor (some l) =
      commit_wake id task actor l (mark_provisioned l.ws task.volume_id task.id at task.ssh_host)

  abbrev pub answer_wake : WorkspaceId → IsoTimestamp → String → RunAnswer → M d Reply
  answer_wake id at actor (placed task) = find e id >>= bind_wake id task at actor
  answer_wake id at actor (placement_refused m) = wait_for_capacity id m
  answer_wake id at actor (run_failed m) =
      rollback_wake id >>= λ _. pure (err (unavailable (launch_failed m)))

  unfoldable pub launch_claimed_wake : WorkspaceId → Workspace → IsoTimestamp → String → M d Reply
  unfolding run_task find stop_task persist_transition wait_for_capacity rollback_wake
  launch_claimed_wake id ws at actor = run_task e ws.latest_snapshot_id >>= answer_wake id at actor

  -- Only the caller that commits the claim launches; the others wait for its wake.
  abbrev pub claimed_wake : WorkspaceId → Workspace → String → Bool → M d Reply
  claimed_wake id ws actor true = clock_now e >>= λ at. launch_claimed_wake id ws at actor
  claimed_wake id ws actor false = await_woken id

  abbrev pub claim_wake : WorkspaceId → Loaded → String → Result Workspace DomainError → M d Reply
  claim_wake id l actor (err x) = pure (err x)
  claim_wake id l actor (ok claim) =
      if is_some l.ws.latest_snapshot_id
      then (persist_transition e claim l.version none >>= claimed_wake id l.ws actor)
      else pure (err (conflict (no_snapshot_to_hydrate id)))

  unfoldable pub start : WorkspaceId → String → M d Reply
  unfolding find clock_now persist_transition await_woken launch_claimed_wake
  start id actor = find e id >>= elim [
    | none ↦ pure (no_workspace id)
    | some l ↦ clock_now e >>= λ at. claim_wake id l actor (mark_waking l.ws at)
  ]
