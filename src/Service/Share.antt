-- ===== src/Service/Share.antt =====
-- `setShare` of packages/control-plane/src/workspace-service.ts.
use ecs_dev_desktop.Common.{
  ℕ, String, Bool, true, false, Option, none, some, or_else, if◌then◌else◌,
}
use ecs_dev_desktop.Result.{Result, ok, err}
use ecs_dev_desktop.Errors.{DomainError, conflict, lost_update}
use ecs_dev_desktop.States.{WorkspaceId}
use ecs_dev_desktop.Workspace.{Workspace}
use ecs_dev_desktop.Workspace.Stop.{set_share}
use ecs_dev_desktop.Service.World.{
  Database, Environment, AuditAction, session_share_enabled, session_share_disabled, M, Loaded,
  pure, ◌>>=◌, clock_now, find, persist_transition,
}
use ecs_dev_desktop.Service.Stop.{Reply, no_workspace, system_actor}

abbrev pub share_action : Bool → AuditAction
share_action enabled = if enabled then session_share_enabled else session_share_disabled

module _ {d : Database} (e : Environment d) where
  abbrev pub answer_share : WorkspaceId → Workspace → Bool → Reply
  answer_share id next true = ok next
  answer_share id next false = err (conflict (lost_update id))

  abbrev pub commit_share :
      WorkspaceId → ℕ → Bool → Option String → Result Workspace DomainError → M d Reply
  commit_share id version enabled actor (err x) = pure (err x)
  commit_share id version enabled actor (ok next) =
      persist_transition e next version (some (share_action enabled, or_else actor system_actor))
      >>= λ done. pure (answer_share id next done)

  abbrev pub share_loaded : WorkspaceId → Bool → Option String → Option Loaded → M d Reply
  share_loaded id enabled actor none = pure (no_workspace id)
  share_loaded id enabled actor (some l) =
      clock_now e >>= λ at. commit_share id l.version enabled actor (set_share l.ws enabled at)

  -- The function of the record shares its name.
  unfoldable pub share : WorkspaceId → Bool → Option String → M d Reply
  unfolding find clock_now persist_transition
  share id enabled actor = find e id >>= share_loaded id enabled actor
