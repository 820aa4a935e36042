-- ===== src/Service/Connect.antt =====
-- `connect` of packages/control-plane/src/workspace-service.ts: wake on connect.
pub mod Ready
use ecs_dev_desktop.Common.{String, Option, none, some, ◌==◌, if◌then◌else◌}
use ecs_dev_desktop.Result.{ok, err}
use ecs_dev_desktop.Errors.{DomainError, conflict, cannot_connect}
use ecs_dev_desktop.States.{WorkspaceId, provisioning, state_eq}
use ecs_dev_desktop.Connect.{ConnectAction, plan_connect}
use ecs_dev_desktop.Service.World.{Database, Environment, M, Loaded, pure, ◌>>=◌, find}
use ecs_dev_desktop.Service.Stop.{Reply, no_workspace}
use ecs_dev_desktop.Service.Wake.{is_up, await_woken, start}

module _ {d : Database} (e : Environment d) where
  -- After a start that was refused the record may have moved on: then the refusal does not stand.
  abbrev pub reconsider : WorkspaceId → DomainError → Option Loaded → M d Reply
  reconsider id x none = pure (err x)
  reconsider id x (some l) =
      if is_up l.ws.state
      then pure (ok l.ws)
      else if l.ws.state == provisioning
      then await_woken e id
      else pure (err x)

  -- A wake that waits for capacity is in flight still.
  abbrev pub after_start : WorkspaceId → Reply → M d Reply
  after_start id (ok ws) = if ws.state == provisioning then await_woken e id else pure (ok ws)
  after_start id (err x) = find e id >>= reconsider id x

  abbrev pub connect_as : WorkspaceId → Loaded → String → ConnectAction → M d Reply
  connect_as id l actor ConnectAction.ready = pure (ok l.ws)
  connect_as id l actor ConnectAction.pending = await_woken e id
  connect_as id l actor ConnectAction.wake = start e id actor >>= after_start id
  connect_as id l actor ConnectAction.unavailable =
      pure (err (conflict (cannot_connect id l.ws.state)))

  unfoldable pub connect : WorkspaceId → String → M d Reply
  unfolding find await_woken start plan_connect
  connect id actor = find e id >>= elim [
    | none ↦ pure (no_workspace id)
    | some l ↦ connect_as id l actor (plan_connect l.ws.state)
  ]
