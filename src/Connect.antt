-- ===== src/Connect.antt =====
-- packages/core/src/lifecycle/connect.ts
use ecs_dev_desktop.States.{
  WorkspaceState, provisioning, running, idle, stopped, stopping, deleting, terminated, error,
}

pub data ConnectAction : Type 0 where
  ready wake pending unavailable : ConnectAction

unfoldable pub plan_connect : WorkspaceState → ConnectAction
plan_connect running = ready
plan_connect idle = ready
plan_connect stopping = ready
plan_connect stopped = wake
plan_connect provisioning = pending
plan_connect deleting = unavailable
plan_connect terminated = unavailable
plan_connect error = unavailable
