-- ===== src/Lifecycle.antt =====
-- packages/core/src/lifecycle/workspace-state-machine.ts
pub mod Paths
mod Tests
use ecs_dev_desktop.Common.{
  Option, none, some, Bool, true, false, List, [], ◌∷◌, ◌≡◌, refl, is_some,
}
use ecs_dev_desktop.Result.{Result, ok, err}
use ecs_dev_desktop.Errors.{DomainError, conflict, invalid_transition}
use ecs_dev_desktop.States.{
  WorkspaceState, provisioning, running, idle, stopped, stopping, deleting, terminated, error,
  WorkspaceEvent, provisioned, activity, idle_timeout, stop, request_stop, cancel_stop, wake,
  terminate, request_delete, recover, undelete, retry, fail, WorkspaceAction,
}

-- `TRANSITIONS[state][event]`
transitions : WorkspaceState → WorkspaceEvent → Option WorkspaceState
transitions provisioning provisioned = some running
transitions provisioning stop = some stopped
transitions provisioning fail = some error
transitions provisioning terminate = some terminated
transitions provisioning request_delete = some deleting
transitions running idle_timeout = some idle
transitions running stop = some stopped
transitions running request_stop = some stopping
transitions running fail = some error
transitions running terminate = some terminated
transitions running request_delete = some deleting
transitions idle activity = some running
transitions idle stop = some stopped
transitions idle request_stop = some stopping
transitions idle fail = some error
transitions idle terminate = some terminated
transitions idle request_delete = some deleting
transitions stopping stop = some stopped
transitions stopping cancel_stop = some running
transitions stopping fail = some error
transitions stopping terminate = some terminated
transitions stopping request_delete = some deleting
transitions stopped wake = some provisioning
transitions stopped terminate = some terminated
transitions stopped fail = some error
transitions stopped request_delete = some deleting
transitions deleting terminate = some terminated
transitions terminated undelete = some stopped
transitions error recover = some stopped
transitions error retry = some provisioning
transitions error terminate = some terminated
transitions error request_delete = some deleting
transitions _ _ = none

abbrev next_or_conflict :
    WorkspaceState → WorkspaceEvent → Option WorkspaceState → Result WorkspaceState DomainError
next_or_conflict state event none = err (conflict (invalid_transition event state))
next_or_conflict state event (some next) = ok next

unfoldable pub transition : WorkspaceState → WorkspaceEvent → Result WorkspaceState DomainError
unfolding transitions
transition state event = next_or_conflict state event (transitions state event)

unfoldable pub can : WorkspaceState → WorkspaceEvent → Bool
unfolding transitions
can state event = is_some (transitions state event)

unfoldable pub workspace_actions : WorkspaceState → List WorkspaceAction
workspace_actions running =
    WorkspaceAction.snapshot ∷ WorkspaceAction.stop ∷ WorkspaceAction.delete ∷ []
workspace_actions idle =
    WorkspaceAction.snapshot ∷ WorkspaceAction.stop ∷ WorkspaceAction.delete ∷ []
workspace_actions stopping = WorkspaceAction.cancel_stop ∷ WorkspaceAction.delete ∷ []
workspace_actions stopped = WorkspaceAction.start ∷ WorkspaceAction.delete ∷ []
workspace_actions provisioning = WorkspaceAction.delete ∷ []
workspace_actions error = WorkspaceAction.retry ∷ WorkspaceAction.delete ∷ []
workspace_actions deleting = []
workspace_actions terminated = WorkspaceAction.undelete ∷ []
