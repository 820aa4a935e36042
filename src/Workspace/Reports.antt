-- ===== src/Workspace/Reports.antt =====
-- The operations of packages/core/src/domain/workspace.ts that record snapshots, activity and the
-- reports of the agent, and those that reconcile a record with what was lost.
use Prim.Native.String.{◌++◌ as ◌<>◌}
use ecs_dev_desktop.Common.{
  ℕ, String, Bool, true, false, not, ◌&&◌, Option, none, some, List, [], ◌∷◌, ◌++◌, ◌==◌, is_some,
  if◌then◌else◌,
}
use ecs_dev_desktop.Result.{Result, ok, err, map}
use ecs_dev_desktop.Errors.{
  DomainError, conflict, text, cannot_restore, cannot_reconcile_task_loss, no_task_bound,
  cannot_record_activity, cannot_recover, no_snapshot_to_recover, cannot_mark_snapshot_lost,
  no_snapshot_referenced,
}
use ecs_dev_desktop.States.{
  SnapshotId, IsoTimestamp, provisioning, running, idle, stopped, error, activity, recover,
  state_eq,
}
use ecs_dev_desktop.Lifecycle.{transition}
use ecs_dev_desktop.Workspace.{Workspace, AgentSession, healthy, degraded}

unfoldable pub record_snapshot : Workspace → SnapshotId → IsoTimestamp → Workspace
record_snapshot ws snapshot at = record ws {
  latest_snapshot_id = some snapshot;
  latest_snapshot_at = some at;
  last_activity = at;
}

-- `taken_at` is when the snapshot was made.
unfoldable pub restore_to_snapshot :
    Workspace → SnapshotId → IsoTimestamp → IsoTimestamp → Result Workspace DomainError
restore_to_snapshot ws snapshot taken_at at =
    if not (ws.state == stopped)
    then err (conflict (cannot_restore ws.id ws.state))
    else ok (record ws {
      latest_snapshot_id = some snapshot;
      latest_snapshot_at = some taken_at;
      last_activity = at;
    })

unfoldable pub mark_task_lost : Workspace → IsoTimestamp → Result Workspace DomainError
mark_task_lost ws at =
    if not (ws.state == provisioning) && (not (ws.state == running) && not (ws.state == idle))
    then err (conflict (cannot_reconcile_task_loss ws.id ws.state))
    else if not (is_some ws.task_id)
    then err (conflict (no_task_bound ws.id))
    else ok (record ws {
      state = if is_some ws.latest_snapshot_id then stopped else error;
      last_activity = at;
      volume_id = none;
      task_id = none;
      ssh_host = none;
    })

unfoldable pub mark_activity : Workspace → IsoTimestamp → Result Workspace DomainError
mark_activity ws at =
    if not (ws.state == running) && not (ws.state == idle)
    then err (conflict (cannot_record_activity ws.state))
    else if ws.state == idle
    then map (transition ws.state activity) (λ next. record ws { state = next; last_activity = at })
    else ok (record ws { last_activity = at })

pub record DiskUsage : Type 0 where
  pub used_bytes : ℕ
  pub total_bytes : ℕ

pub record Probes : Type 0 where
  pub ide : Bool
  pub workspace : Bool
  pub disk : Option DiskUsage

-- The `failures` that the probes add up to.
abbrev failures : Probes → List String
failures p =
    (if p.ide
      then []
      else "IDE unreachable (the desktop's HTTP surface did not answer the agent's probe)" ∷ [])
    ++ (if p.workspace then [] else "workspace not writable" ∷ [])

-- `failures.join("; ")`
join_failures : List String → String
join_failures [] = ""
join_failures (s ∷ []) = s
join_failures (s ∷ t ∷ rest) = s <> ("; " <> join_failures (t ∷ rest))

-- An omitted measurement keeps the last one.
abbrev with_disk : Option DiskUsage → Workspace → Workspace
with_disk none ws = ws
with_disk (some d) ws = record ws {
  disk_used_bytes = some d.used_bytes;
  disk_total_bytes = some d.total_bytes;
}

abbrev is_empty {ℓ} : {A : Type ℓ} → List A → Bool
is_empty [] = true
is_empty (_ ∷ _) = false

unfoldable pub record_functional : Workspace → Probes → IsoTimestamp → Workspace
unfolding join_failures
record_functional ws probes at =
    let failed = failures probes in
    with_disk probes.disk (record ws {
      functional = some (if is_empty failed then healthy else degraded);
      functional_detail =
          some (text (if is_empty failed then "IDE + workspace healthy" else join_failures failed));
      functional_at = some at;
    })

unfoldable pub record_sessions : Workspace → List AgentSession → IsoTimestamp → Workspace
record_sessions ws sessions at = record ws { sessions = some sessions; sessions_at = some at }

unfoldable pub mark_recovered : Workspace → IsoTimestamp → Result Workspace DomainError
mark_recovered ws at =
    if not (ws.state == error)
    then err (conflict (cannot_recover ws.id ws.state))
    else if not (is_some ws.latest_snapshot_id)
    then err (conflict (no_snapshot_to_recover ws.id))
    else map (transition ws.state recover) λ next. record ws {
      state = next;
      last_activity = at;
      volume_id = none;
      task_id = none;
      ssh_host = none;
    }

unfoldable pub is_unrecoverable : Workspace → Bool
is_unrecoverable ws = ws.state == error && not (is_some ws.latest_snapshot_id)

unfoldable pub mark_snapshot_lost : Workspace → IsoTimestamp → Result Workspace DomainError
mark_snapshot_lost ws at =
    if not (ws.state == stopped) && not (ws.state == error)
    then err (conflict (cannot_mark_snapshot_lost ws.id ws.state))
    else if not (is_some ws.latest_snapshot_id)
    then err (conflict (no_snapshot_referenced ws.id))
    else ok (record ws {
      state = error;
      last_activity = at;
      latest_snapshot_id = none;
      latest_snapshot_at = none;
    })
