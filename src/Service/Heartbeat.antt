-- ===== src/Service/Heartbeat.antt =====
-- `heartbeat` of packages/control-plane/src/workspace-service.ts.
pub mod Writes
use ecs_dev_desktop.Common.{
  ℕ, zero, suc, Bool, true, false, not, ◌&&◌, ◌||◌, Option, none, some, List, ◌==◌, if◌then◌else◌,
}
use ecs_dev_desktop.Result.{Result, ok, err}
use ecs_dev_desktop.Errors.{DomainError, conflict, lost_update, cannot_heartbeat}
use ecs_dev_desktop.States.{WorkspaceId, IsoTimestamp, WorkspaceState, provisioning, state_eq}
use ecs_dev_desktop.Workspace.{Workspace, AgentSession}
use ecs_dev_desktop.Workspace.Reports.{Probes, mark_activity, record_functional, record_sessions}
use ecs_dev_desktop.Service.World.{
  Database, Environment, M, Loaded, pure, ◌>>=◌, clock_now, find, persist_transition,
}
use ecs_dev_desktop.Service.Stop.{Reply, no_workspace}
use ecs_dev_desktop.Service.Wake.{is_up}
use ecs_dev_desktop.Service.Snapshot.{settle_attempt}

pub record HeartbeatReport : Type 0 where
  pub functional : Option Probes
  pub active : Option Bool
  pub sessions : Option (List AgentSession)

-- `report?.active !== false`
abbrev counts_as_active : Option HeartbeatReport → Bool
counts_as_active none = true
counts_as_active (some r) = elim r.active [ none ↦ true | some b ↦ b ]

-- A booting workspace has no idle window to refresh.
unfoldable pub beat_activity :
    Workspace → Option HeartbeatReport → IsoTimestamp → Result Workspace DomainError
beat_activity ws report at =
    if not (ws.state == provisioning) && counts_as_active report then mark_activity ws at else ok ws

abbrev with_functional : Option Probes → IsoTimestamp → Workspace → Workspace
with_functional none at ws = ws
with_functional (some probes) at ws = record_functional ws probes at

abbrev with_sessions : Option (List AgentSession) → IsoTimestamp → Workspace → Workspace
with_sessions none at ws = ws
with_sessions (some sessions) at ws = record_sessions ws sessions at

unfoldable pub folded : Workspace → Option HeartbeatReport → IsoTimestamp → Workspace
folded ws none at = ws
folded ws (some r) at = with_sessions r.sessions at (with_functional r.functional at ws)

abbrev pub may_beat : WorkspaceState → Bool
may_beat s = is_up s || (s == provisioning)

module _ {d : Database} (e : Environment d) where
  abbrev pub write_beat :
      WorkspaceId
      → Option HeartbeatReport
      → ℕ
      → IsoTimestamp
      → M d Reply
      → Result Workspace DomainError
      → M d Reply
  write_beat id report version at again (err x) = pure (err x)
  write_beat id report version at again (ok ws) =
      persist_transition e (folded ws report at) version none
      >>= settle_attempt e id (folded ws report at) again

  abbrev pub beat_on : WorkspaceId → Option HeartbeatReport → M d Reply → Option Loaded → M d Reply
  beat_on id report again none = pure (no_workspace id)
  beat_on id report again (some l) = clock_now e >>= λ at.
      if not (may_beat l.ws.state)
      then pure (err (conflict (cannot_heartbeat id l.ws.state)))
      else write_beat id report l.version at again (beat_activity l.ws report at)

  -- A lost write is tried once more, on the record as it is then.
  unfoldable pub beat_attempt : ℕ → WorkspaceId → Option HeartbeatReport → M d Reply
  unfolding find clock_now persist_transition beat_activity folded
  beat_attempt zero id report =
      find e id >>= beat_on id report (pure (err (conflict (lost_update id))))
  beat_attempt (suc retries) id report =
      find e id >>= beat_on id report (beat_attempt retries id report)

  unfoldable pub heartbeat : WorkspaceId → Option HeartbeatReport → M d Reply
  unfolding beat_attempt
  heartbeat id report = beat_attempt 1 id report
