-- ===== src/Service/Stop/Order.antt =====
-- The order of the effects of a stop, and what a stop that returns a workspace has reached.
use ecs_dev_desktop.Common.{
  ℕ, String, Bool, true, false, Option, none, some, List, [], ◌∷◌, ◌≡◌, refl, arith, inl, inr,
  Bool-cases, ◌==◌, ◌||◌, Option-cases, if◌then◌else◌,
}
use ecs_dev_desktop.Result.{Result, ok, err}
use ecs_dev_desktop.Errors.{Message, DomainError, conflict, lost_to, lost_update}
use ecs_dev_desktop.States.{
  WorkspaceId, VolumeId, SnapshotId, TaskId, IsoTimestamp, WorkspaceState, stopped, WorkspaceEvent,
  state_eq,
}
use ecs_dev_desktop.Lifecycle.{transition}
use ecs_dev_desktop.Workspace.{Workspace}
use ecs_dev_desktop.Workspace.Stop.{FreshSnapshot, mark_stopped}
use ecs_dev_desktop.Service.World.{
  Database, Environment, World, Loaded, Effect, committed, snapshot_taken, task_started,
  task_stopped, removed, snapshot_deleted, Outcome, returned, SnapshotAnswer, taken, gone,
  storage_failed, pure, throw,
}
use ecs_dev_desktop.Service.Rules.{
  Log, Triple, Keeps, bind-Triple, bind-Keeps, pure-Triple, pure-Keeps, throw-Keeps, caught-Keeps,
  clock_now-Keeps, find-Keeps, create_snapshot-Keeps, stop_task-Triple, persist-Triple,
}
use ecs_dev_desktop.Service.Stop.{
  Reply, snapshot_for_transition, settle_snapshot, snapshot_before_stop, idle_guard,
  stop_best_effort, stopped_anyway, commit_stop, stop_now, stop_loaded, stop, is_always_on,
  commit_marked, validated, is_gone, version_moved,
}

abbrev pub IsRelease : List Effect → Type 0
IsRelease (committed next v audit ∷ t) = (next.state ≡ stopped) × (next.task_id ≡ none)
IsRelease _ = ⊥

-- Each request to stop a task comes right after the commit of a stopped record that names no task.
abbrev pub IsReleased : Log
IsReleased [] = Unit
IsReleased (task_stopped task ∷ t) = IsRelease t × IsReleased t
IsReleased (committed next v audit ∷ t) = IsReleased t
IsReleased (snapshot_taken volume s ∷ t) = IsReleased t
IsReleased (task_started task s ∷ t) = IsReleased t
IsReleased (removed id v actor ∷ t) = IsReleased t
IsReleased (snapshot_deleted s ∷ t) = IsReleased t

abbrev Committed : Log
Committed t = IsRelease t × IsReleased t

abbrev Settled : Outcome Bool → Log
Settled (returned true) = Committed
Settled _ = IsReleased

-- A stop that returns a workspace returns a stopped one; and the tasks are released in order.
abbrev pub IsStopReply : Outcome Reply → Log
IsStopReply (returned (ok ws)) t = (ws.state ≡ stopped) × IsReleased t
IsStopReply _ t = IsReleased t

mark_stopped-released :
    (ws : Workspace) (fresh : Option FreshSnapshot) (at : IsoTimestamp) (next : Workspace)
    → mark_stopped ws fresh at ≡ ok next
    → (next.state ≡ stopped) × (next.task_id ≡ none)
unfolding mark_stopped transition
mark_stopped-released ws fresh at next h = ground arith

module _ {d : Database} (e : Environment d) where
  best_effort-Triple :
      (task : Option TaskId) → Triple Committed (stop_best_effort e task) (λ _. IsReleased)
  best_effort-Triple none = pure-Triple λ t p. p.1
  best_effort-Triple (some task) =
      bind-Triple (caught-Keeps (stop_task-Triple e task λ t p. p)) (λ _. pure-Keeps) (λ x t p. p)
        (λ t p. p)

  stopped_reply :
      (id : WorkspaceId) (l : Loaded) (b : Bool)
      → (l.ws.state == stopped) ≡ b
      → Triple {d = d} IsReleased
          (if b then pure (ok l.ws) else pure (err (conflict (lost_to id l.ws.state))))
          IsStopReply
  stopped_reply id l true h = pure-Triple λ t p. (ground arith, p)
  stopped_reply id l false h = pure-Triple λ t p. p

  anyway-Triple : (id : WorkspaceId) → Triple IsReleased (stopped_anyway e id) IsStopReply
  anyway-Triple id =
      bind-Triple (find-Keeps e id)
        (elim [
          | none ↦ pure-Triple λ t p. p
          | some l ↦ stopped_reply id l (l.ws.state == stopped) refl
        ])
        (λ x t p. p) (λ t p. p)

  commit_stop-Triple :
      (id : WorkspaceId) (l : Loaded) (next : Workspace) (actor : String)
      → (next.state ≡ stopped) × (next.task_id ≡ none)
      → Triple IsReleased (commit_stop e id l next actor) IsStopReply
  unfolding commit_stop
  commit_stop-Triple id l next actor h =
      bind-Triple {Q = Settled}
        (persist-Triple e next l.version _ (λ t p. (h, p)) (λ t p. p) (λ m t p. p))
        (elim [
          | true ↦
              bind-Triple (best_effort-Triple l.ws.task_id) (λ _. pure-Triple λ t p. (h.0, p))
                (λ x t p. p) (λ t p. p)
          | false ↦ anyway-Triple id
        ])
        (λ x t p. p) (λ t p. p)

  settle_snapshot-Keeps :
      (id : WorkspaceId) (version : ℕ) (answer : SnapshotAnswer) (m : Message)
      → Keeps IsReleased (settle_snapshot e id version answer m)
  settle_snapshot-Keeps id version answer m =
      bind-Keeps (find-Keeps e id) (λ o. lost id m (is_gone answer || version_moved o version))
    where
      lost :
          (id : WorkspaceId) (m : Message) (b : Bool)
          → Keeps {d = d} {A = Result SnapshotId DomainError} IsReleased
              (if b then pure (err (conflict (lost_update id))) else throw m)
      lost id m true = pure-Keeps
      lost id m false = throw-Keeps

  snapshot_for_transition-Keeps :
      (id : WorkspaceId) (volume : VolumeId) (version : ℕ)
      → Keeps IsReleased (snapshot_for_transition e id volume version)
  unfolding snapshot_for_transition
  snapshot_for_transition-Keeps id volume version =
      bind-Keeps (create_snapshot-Keeps e volume (λ s t p. p)) (elim [
        | taken s ↦ pure-Keeps
        | gone ↦ settle_snapshot-Keeps id version gone (lost_update id)
        | storage_failed m ↦ settle_snapshot-Keeps id version (storage_failed m) m
      ])

  snapshot_before_stop-Keeps :
      (id : WorkspaceId) (ws : Workspace) (version : ℕ) (at : IsoTimestamp)
      → Keeps IsReleased (snapshot_before_stop e id ws version at)
  unfolding snapshot_before_stop
  snapshot_before_stop-Keeps id ws version at = elim (Option-cases ws.volume_id) [
    | inl dead ↦ rw dead pure-Keeps
    | inr (volume, live) ↦ rw live (
        bind-Keeps (snapshot_for_transition-Keeps id volume version)
          (elim [ ok s ↦ pure-Keeps | err x ↦ pure-Keeps ]))
  ]

  commit_marked-Triple :
      (id : WorkspaceId) (l : Loaded) (actor : String) (r : Result Workspace DomainError)
      → ((next : Workspace) → r ≡ ok next → (next.state ≡ stopped) × (next.task_id ≡ none))
      → Triple IsReleased (commit_marked e id l actor r) IsStopReply
  commit_marked-Triple id l actor (err x) h = pure-Triple λ t p. p
  commit_marked-Triple id l actor (ok next) h = commit_stop-Triple id l next actor (h next refl)

  stop_now-Triple :
      (id : WorkspaceId) (l : Loaded) (actor : String)
      → Triple IsReleased (stop_now e id l actor) IsStopReply
  unfolding stop_now
  stop_now-Triple id l actor =
      bind-Triple (clock_now-Keeps e)
        (λ at.
          bind-Triple (snapshot_before_stop-Keeps id l.ws l.version at)
            (elim [
              | err x ↦ pure-Triple λ t p. p
              | ok fresh ↦
                  commit_marked-Triple id l actor (mark_stopped l.ws fresh at)
                    (mark_stopped-released l.ws fresh at)
            ])
            (λ x t p. p) (λ t p. p))
        (λ x t p. p) (λ t p. p)

  guarded-Keeps :
      (id : WorkspaceId) (ws : Workspace) (limit : Option ℕ)
      → Keeps IsReleased (idle_guard e id ws limit)
  unfolding idle_guard
  guarded-Keeps id ws none = pure-Keeps
  guarded-Keeps id ws (some ms) = elim (Bool-cases (is_always_on ws.always_on)) [
    | inl b ↦ rw b pure-Keeps
    | inr b ↦ rw b (bind-Keeps (clock_now-Keeps e) (λ at. pure-Keeps))
  ]

  validated-Triple :
      (id : WorkspaceId) (l : Loaded) (actor : String) (limit : Option ℕ)
      (r : Result WorkspaceState DomainError)
      → Triple IsReleased (validated e id l actor limit r) IsStopReply
  validated-Triple id l actor limit (err x) = pure-Triple λ t p. p
  validated-Triple id l actor limit (ok s) =
      bind-Triple (guarded-Keeps id l.ws limit)
        (elim [ some x ↦ pure-Triple λ t p. p | none ↦ stop_now-Triple id l actor ]) (λ x t p. p)
        (λ t p. p)

  stop_loaded-Triple :
      (id : WorkspaceId) (l : Loaded) (actor : String) (limit : Option ℕ)
      → Triple IsReleased (stop_loaded e id l actor limit) IsStopReply
  unfolding stop_loaded
  stop_loaded-Triple id l actor limit =
      validated-Triple id l actor limit (transition l.ws.state WorkspaceEvent.stop)

  -- If every request to stop a task so far came right after the commit of a stopped record with no
  -- task, the same holds after a stop, however it ends; and when it returns a workspace, that is
  -- stopped. In particular a stop that loses its write has asked for no task to be stopped.
  pub stop_releases_in_order :
      (id : WorkspaceId) (actor : String) (limit : Option ℕ) (w : World d)
      → IsReleased w.trace
      → IsStopReply (stop e id actor limit w).0 (stop e id actor limit w).1.trace
  unfolding stop
  stop_releases_in_order id actor limit w p = stopping.holds w p
    where
      stopping : Triple IsReleased (stop e id actor limit) IsStopReply
      stopping =
          bind-Triple (find-Keeps e id)
            (elim [ none ↦ pure-Triple λ t q. q | some l ↦ stop_loaded-Triple id l actor limit ])
            (λ x t q. q) (λ t q. q)
