-- ===== src/Workspace/Launch.antt =====
-- The operations of packages/core/src/domain/workspace.ts that launch a workspace or wake it, and
-- the wait for capacity when a launch is refused placement.
use Prim.Native.Nat.{min}
use ecs_dev_desktop.Common.{
  ℕ, ◌+◌, ◌-◌, ◌*◌, ◌^◌, String, Bool, false, not, ◌&&◌, ◌||◌, Option, none, some, ◌==◌, ltb, leb,
  is_some, or_else, if◌then◌else◌,
}
use ecs_dev_desktop.Result.{Result, ok, err, map}
use ecs_dev_desktop.Errors.{
  Message, DomainError, conflict, not_waiting_for_placement, placement_exhausted,
}
use ecs_dev_desktop.States.{
  VolumeId, TaskId, IsoTimestamp, provisioning, provisioned, wake, retry, fail, state_eq,
}
use ecs_dev_desktop.Lifecycle.{transition}
use ecs_dev_desktop.Workspace.{Workspace, degraded}
use ecs_dev_desktop.Workspace.Stop.{no_placement_wait}

-- packages/core/src/domain/constants.ts
abbrev pub placement_retry_base_ms : ℕ
placement_retry_base_ms = 15 * 1000

abbrev pub placement_retry_max_ms : ℕ
placement_retry_max_ms = 2 * 60 * 1000

abbrev pub max_placement_attempts : ℕ
max_placement_attempts = 8

unfoldable pub mark_waking : Workspace → IsoTimestamp → Result Workspace DomainError
mark_waking ws at =
    map (transition ws.state wake) λ next. record ws { state = next; last_activity = at }

unfoldable pub mark_provisioned :
    Workspace → VolumeId → TaskId → IsoTimestamp → Option String → Result Workspace DomainError
mark_provisioned ws volume task at host = map (transition ws.state provisioned) λ next.
    no_placement_wait (record ws {
      state = next;
      last_activity = at;
      volume_id = some volume;
      task_id = some task;
      ssh_host = host;
    })

-- `attempts - 1` stops at 0, as `Math.max(0, attempts - 1)` does.
unfoldable pub placement_retry_delay_ms : ℕ → ℕ
placement_retry_delay_ms attempts =
    min (placement_retry_base_ms * 2 ^ (attempts - 1)) placement_retry_max_ms

unfoldable pub defer_placement : Workspace → Message → IsoTimestamp → Result Workspace DomainError
defer_placement ws reason at =
    let attempts = or_else ws.placement_attempts 0 + 1 in
    if not (ws.state == provisioning) || is_some ws.task_id
    then err (conflict (not_waiting_for_placement ws.id ws.state))
    else if ltb max_placement_attempts attempts
    then err (conflict (placement_exhausted ws.id attempts reason))
    else ok (record ws {
      last_activity = at;
      placement_reason = some reason;
      placement_attempts = some attempts;
      placement_retry_at = some (at + placement_retry_delay_ms attempts);
    })

-- `placementRetryAt` is there and has come.
abbrev due_by : Option IsoTimestamp → IsoTimestamp → Bool
due_by none now = false
due_by (some t) now = leb t now

unfoldable pub placement_due : Workspace → IsoTimestamp → Bool
placement_due ws now =
    ws.state == provisioning && (not (is_some ws.task_id) && due_by ws.placement_retry_at now)

unfoldable pub mark_provisioning_failed :
    Workspace → Message → IsoTimestamp → Result Workspace DomainError
mark_provisioning_failed ws reason at = map (transition ws.state fail) λ next.
    no_placement_wait (record ws {
      state = next;
      last_activity = at;
      functional = some degraded;
      functional_detail = some reason;
      functional_at = some at;
    })

unfoldable pub retry_provisioning : Workspace → IsoTimestamp → Result Workspace DomainError
retry_provisioning ws at = map (transition ws.state retry) λ next. record ws {
  state = next;
  last_activity = at;
  functional = none;
  functional_detail = none;
  functional_at = none;
}
