-- ===== src/Service/Drift.antt =====
-- `restoreSnapshot`, `reconcileTaskLoss` and `markSnapshotLostFor` of
-- packages/control-plane/src/workspace-service.ts: the record after what happened outside the service. What
-- the storage lists and whether a task runs are arbitrary functions of the step.
use ecs_dev_desktop.Common.{
  ℕ, String, Bool, true, false, ◌||◌, Option, none, some, List, [], ◌∷◌, ◌==◌, string_eq, or_else,
  if◌then◌else◌,
}
use ecs_dev_desktop.Result.{Result, ok, err}
use ecs_dev_desktop.Errors.{DomainError, conflict, not_found, lost_update}
use ecs_dev_desktop.States.{WorkspaceId, SnapshotId, TaskId, running, idle, state_eq}
use ecs_dev_desktop.Maintenance.{SnapshotRef}
use ecs_dev_desktop.Workspace.{Workspace}
use ecs_dev_desktop.Workspace.Reports.{restore_to_snapshot, mark_task_lost, mark_snapshot_lost}
use ecs_dev_desktop.Service.World.{
  Database, Environment, returned, session_stop, session_restore, session_snapshot_lost, M, Loaded,
  pure, ◌>>=◌, resume, clock_now, find, persist_transition,
}
use ecs_dev_desktop.Service.Finish.{Done}
use ecs_dev_desktop.Service.Stop.{Reply, no_workspace, system_actor}

abbrev pub find_snapshot : SnapshotId → List SnapshotRef → Option SnapshotRef
find_snapshot id [] = none
find_snapshot id (s ∷ ss) = let rest = find_snapshot id ss in if s.id == id then some s else rest

abbrev pub carries_tag : WorkspaceId → Option WorkspaceId → Bool
carries_tag id none = false
carries_tag id (some owner) = owner == id

abbrev pub with_tag : WorkspaceId → SnapshotRef → Option SnapshotRef
with_tag id s = if carries_tag id s.workspace_id then some s else none

-- The listed snapshot, if it carries the tag of the workspace
abbrev pub own_snapshot : WorkspaceId → Option SnapshotRef → Option SnapshotRef
own_snapshot id none = none
own_snapshot id (some s) = with_tag id s

pub record TaskLoss : Type 0 where
  pub lost : Bool
  pub workspace : Workspace

abbrev pub no_loss : Workspace → Result TaskLoss DomainError
no_loss ws = ok (record { lost = false; workspace = ws })

module _ {d : Database} (e : Environment d) (listed : ℕ → List SnapshotRef)
    (is_running : ℕ → TaskId → Bool) where
  abbrev pub list_snapshots : M d (List SnapshotRef)
  list_snapshots w = (returned (listed w.step), resume e w)

  abbrev pub runs_task : TaskId → M d Bool
  runs_task task w = (returned (is_running w.step task), resume e w)

  abbrev pub answer_restore : WorkspaceId → Workspace → Bool → Reply
  answer_restore id next true = ok next
  answer_restore id next false = err (conflict (lost_update id))

  abbrev pub commit_restore : WorkspaceId → ℕ → String → Result Workspace DomainError → M d Reply
  commit_restore id version actor (err x) = pure (err x)
  commit_restore id version actor (ok next) =
      persist_transition e next version (some (session_restore, actor)) >>= λ done.
      pure (answer_restore id next done)

  -- One answer for a snapshot that is not there and for one of another workspace
  abbrev pub restore_from :
      WorkspaceId → Loaded → SnapshotId → String → Option SnapshotRef → M d Reply
  restore_from id l snapshot actor none = pure (err (not_found "snapshot" snapshot))
  restore_from id l snapshot actor (some s) = clock_now e >>= λ at.
      commit_restore id l.version actor (restore_to_snapshot l.ws s.id s.created_at at)

  abbrev pub restore_loaded : WorkspaceId → SnapshotId → String → Option Loaded → M d Reply
  restore_loaded id snapshot actor none = pure (no_workspace id)
  restore_loaded id snapshot actor (some l) = list_snapshots >>= λ all.
      restore_from id l snapshot actor (own_snapshot id (find_snapshot snapshot all))

  unfoldable pub restore_snapshot : WorkspaceId → SnapshotId → Option String → M d Reply
  unfolding find clock_now persist_transition
  restore_snapshot id snapshot actor =
      find e id >>= restore_loaded id snapshot (or_else actor system_actor)

  abbrev pub answer_loss : WorkspaceId → Workspace → Bool → Result TaskLoss DomainError
  answer_loss id next true = ok (record { lost = true; workspace = next })
  answer_loss id next false = err (conflict (lost_update id))

  abbrev pub commit_loss :
      WorkspaceId → ℕ → Result Workspace DomainError → M d (Result TaskLoss DomainError)
  commit_loss id version (err x) = pure (err x)
  commit_loss id version (ok next) =
      persist_transition e next version (some (session_stop, "system:drift")) >>= λ done.
      pure (answer_loss id next done)

  abbrev pub loss_of : WorkspaceId → Loaded → Bool → M d (Result TaskLoss DomainError)
  loss_of id l true = pure (no_loss l.ws)
  loss_of id l false = clock_now e >>= λ at. commit_loss id l.version (mark_task_lost l.ws at)

  abbrev pub check_task : WorkspaceId → Loaded → Option TaskId → M d (Result TaskLoss DomainError)
  check_task id l none = pure (no_loss l.ws)
  check_task id l (some task) =
      if l.ws.state == running || l.ws.state == idle
      then (runs_task task >>= loss_of id l)
      else pure (no_loss l.ws)

  abbrev pub reconcile_loaded : WorkspaceId → Option Loaded → M d (Result TaskLoss DomainError)
  reconcile_loaded id none = pure (no_workspace id)
  reconcile_loaded id (some l) = check_task id l l.ws.task_id

  unfoldable pub reconcile_task_loss : WorkspaceId → M d (Result TaskLoss DomainError)
  unfolding find clock_now persist_transition
  reconcile_task_loss id = find e id >>= reconcile_loaded id

  -- A lost race is benign.
  abbrev pub commit_snapshot_lost : ℕ → Result Workspace DomainError → M d Done
  commit_snapshot_lost version (err x) = pure (ok tt)
  commit_snapshot_lost version (ok lost) =
      persist_transition e lost version (some (session_snapshot_lost, system_actor)) >>= λ _.
      pure (ok tt)

  abbrev pub snapshot_lost_loaded : Option Loaded → M d Done
  snapshot_lost_loaded none = pure (ok tt)
  snapshot_lost_loaded (some l) =
      clock_now e >>= λ at. commit_snapshot_lost l.version (mark_snapshot_lost l.ws at)

  unfoldable pub mark_snapshot_lost_for : WorkspaceId → M d Done
  unfolding find clock_now persist_transition
  mark_snapshot_lost_for id = find e id >>= snapshot_lost_loaded
