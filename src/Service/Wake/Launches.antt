-- ===== src/Service/Wake/Launches.antt =====
-- What a wake does with the task it launches.
use ecs_dev_desktop.Common.{
  String, Bool, true, false, ◌||◌, Option, none, some, List, ◌≡◌, refl, inl, inr, Bool-cases,
  is_some, ◌==◌, string_eq,
}
use ecs_dev_desktop.Result.{Result, ok, err}
use ecs_dev_desktop.Errors.{Message, DomainError}
use ecs_dev_desktop.States.{WorkspaceId, TaskId, IsoTimestamp, provisioning, running, state_eq}
use ecs_dev_desktop.Workspace.{Workspace}
use ecs_dev_desktop.Workspace.Stop.{mark_stopped}
use ecs_dev_desktop.Workspace.Launch.{defer_placement, mark_provisioning_failed}
use ecs_dev_desktop.Service.World.{
  Database, Environment, M, Loaded, Effect, Outcome, returned, thrown, unfinished, ComputeTask,
  RunAnswer, placed, placement_refused, run_failed, ◌>>=◌, stop_task,
}
use ecs_dev_desktop.Service.Rules.{
  Log, Triple, bind-Triple, pure-Triple, caught-Triple, persist-Triple, run_task-Triple,
}
use ecs_dev_desktop.Service.Stop.{Reply}
use ecs_dev_desktop.Service.Wake.{
  is_up, revert, rollback_wake, commit_failure, record_launch_failure, refusal_reason, give_up,
  commit_wait, wait_for_capacity, woken_anyway, settle_wake, commit_wake, bind_wake, answer_wake,
  launch_claimed_wake,
}
use ecs_dev_desktop.Service.Wake.Steps.{
  IsClaim, IsSettled, HasOpen, IsWakeReply, Quiet, settle-same, mark_provisioned-bound,
  defer_placement-waits, find-After, clock-After, commit-Quiet, stop-After, bind-After, bind-Quiet,
}

-- What the answer of a launch, and the outcome of the commit of its task, leave.
abbrev Answered : RunAnswer → Log
Answered (placed task) = HasOpen task.id
Answered _ = IsSettled

abbrev Ran : Outcome RunAnswer → Log
Ran (returned a) t = Answered a t
Ran _ t = ⊥

abbrev Committed : TaskId → Outcome Bool → Log
Committed task (returned true) t = IsSettled t
Committed task (returned false) t = HasOpen task t
Committed task (thrown m) t = HasOpen task t
Committed task unfinished t = ⊥

-- The claim has just been committed.
abbrev pub Claimed : Log
Claimed t = IsClaim t × IsSettled t

in_flight :
    (ws : Workspace)
    → ws.state ≡ provisioning
    → (is_up ws.state || (ws.state == provisioning)) ≡ true
in_flight ws h = rw h refl

pub up_reply :
    (ws : Workspace) → is_up ws.state ≡ true → (is_up ws.state || (ws.state == provisioning)) ≡ true
up_reply ws h = rw h refl

module _ {d : Database} (e : Environment d) where
  revert-Quiet :
      (l : Loaded) (r : Result Workspace DomainError) → Triple IsSettled (revert e l r) Quiet
  revert-Quiet l (err x) = pure-Triple λ t p. p
  revert-Quiet l (ok next) =
      bind-Quiet (commit-Quiet e next l.version none) (λ b. pure-Triple λ t p. p) (λ x t p. p)

  rollback-Quiet : (id : WorkspaceId) → Triple IsSettled (rollback_wake e id) Quiet
  unfolding rollback_wake
  rollback-Quiet id =
      bind-After (find-After e id)
        (elim [
          | none ↦ pure-Triple λ t p. p
          | some l ↦ elim (Bool-cases (l.ws.state == provisioning)) [
            | inl h ↦ rw h (
                bind-After (clock-After e) (λ at. revert-Quiet l (mark_stopped l.ws none at))
                  (λ x t p. p.0))
            | inr h ↦ rw h (pure-Triple λ t p. p)
          ]
        ])
        (λ x t p. p.0)

  commit_failure-Triple :
      (reason : Message) (l : Loaded) (r : Result Workspace DomainError)
      → Triple IsSettled (commit_failure e reason l r) IsWakeReply
  commit_failure-Triple reason l (err x) = pure-Triple λ t p. p
  commit_failure-Triple reason l (ok next) =
      bind-Quiet (commit-Quiet e next l.version none) (λ b. pure-Triple λ t p. p) (λ x t p. p)

  pub failure-Triple :
      (id : WorkspaceId) (reason : Message)
      → Triple IsSettled (record_launch_failure e id reason) IsWakeReply
  unfolding record_launch_failure
  failure-Triple id reason =
      bind-After (find-After e id)
        (elim [
          | none ↦ pure-Triple λ t p. p
          | some l ↦
              bind-After (clock-After e)
                (λ at. commit_failure-Triple reason l (mark_provisioning_failed l.ws reason at))
                (λ x t p. p.0)
        ])
        (λ x t p. p.0)

  give_up-Triple :
      (id : WorkspaceId) (ws : Workspace) (why : Message)
      → Triple IsSettled (give_up e id ws why) IsWakeReply
  give_up-Triple id ws why = elim (Bool-cases (is_some ws.latest_snapshot_id)) [
    | inl h ↦ rw h (bind-Quiet (rollback-Quiet id) (λ _. pure-Triple λ t p. p) (λ x t p. p))
    | inr h ↦ rw h (failure-Triple id why)
  ]

  commit_wait-Triple :
      (id : WorkspaceId) (l : Loaded) (refusal : Message) (r : Result Workspace DomainError)
      → ((next : Workspace) → r ≡ ok next → next.state ≡ provisioning)
      → Triple IsSettled (commit_wait e id l refusal r) IsWakeReply
  commit_wait-Triple id l refusal (err x) h = give_up-Triple id l.ws (refusal_reason x refusal)
  commit_wait-Triple id l refusal (ok next) h =
      bind-Quiet (commit-Quiet e next l.version none)
        (elim [
          | true ↦ pure-Triple λ t p. (in_flight next (h next refl), p)
          | false ↦ pure-Triple λ t p. p
        ])
        (λ x t p. p)

  pub capacity-Triple :
      (id : WorkspaceId) (refusal : Message)
      → Triple IsSettled (wait_for_capacity e id refusal) IsWakeReply
  unfolding wait_for_capacity
  capacity-Triple id refusal =
      bind-After (find-After e id)
        (elim [
          | none ↦ pure-Triple λ t p. p
          | some l ↦
              bind-After (clock-After e)
                (λ at.
                  commit_wait-Triple id l refusal (defer_placement l.ws refusal at)
                    (defer_placement-waits l.ws refusal at))
                (λ x t p. p.0)
        ])
        (λ x t p. p.0)

  anyway-Triple :
      (id : WorkspaceId) (o : Option Loaded)
      → Triple {d = d} IsSettled (woken_anyway id o) IsWakeReply
  anyway-Triple id none = pure-Triple λ t p. p
  anyway-Triple id (some l) = elim (Bool-cases (is_up l.ws.state)) [
    | inl h ↦ rw h (pure-Triple λ t p. (up_reply l.ws h, p))
    | inr h ↦ rw h (pure-Triple λ t p. p)
  ]

  stop-then :
      {R : Outcome Reply → Log} {f : Unit {0} → M d Reply} (task : TaskId)
      → ((u : Unit) → Triple IsSettled (f u) R)
      → ((x : Message) (t : List Effect) → IsSettled t → R (thrown x) t)
      → Triple (HasOpen task) (stop_task e task >>= f) R
  stop-then task = bind-After (stop-After e task (λ t p. (p.0, rw p.1 (settle-same task))))

  settle_wake-Triple :
      (id : WorkspaceId) (task : ComputeTask) (next : Workspace) (o : Outcome Bool)
      → next.state ≡ running
      → Triple (λ t. Committed task.id o t) (settle_wake e id task next o) IsWakeReply
  settle_wake-Triple id task next (returned true) h =
      pure-Triple λ t p. (up_reply next (rw h refl), p)
  settle_wake-Triple id task next (returned false) h =
      stop-then task.id (λ _. bind-After (find-After e id) (anyway-Triple id) (λ x t p. p.0))
        (λ x t p. p.0)
  settle_wake-Triple id task next (thrown m) h =
      stop-then task.id
        (λ _. bind-Quiet (rollback-Quiet id) (λ _. record { holds = λ w p. p.0 }) (λ x t p. p))
        (λ x t p. p.0)
  settle_wake-Triple id task next unfinished h = record { holds = λ w p. absurd p }

  commit_wake-Triple :
      (id : WorkspaceId) (task : ComputeTask) (actor : String) (l : Loaded)
      (r : Result Workspace DomainError)
      → ((next : Workspace) → r ≡ ok next → (next.state ≡ running) × (next.task_id ≡ some task.id))
      → Triple (HasOpen task.id) (commit_wake e id task actor l r) IsWakeReply
  commit_wake-Triple id task actor l (err x) h =
      stop-then task.id (λ _. pure-Triple λ t p. p) (λ x t p. p.0)
  commit_wake-Triple id task actor l (ok next) h =
      bind-Triple
        (caught-Triple {Q = Committed task.id} (
          persist-Triple e next l.version _
            (λ t p. (p.0, rw (p.1, (h next refl).1) (settle-same task.id))) (λ t p. p)
            (λ m t p. p)))
        (λ o. settle_wake-Triple id task next o (h next refl).0) (λ x t p. absurd p)
        (λ t p. absurd p)

  bind_wake-Triple :
      (id : WorkspaceId) (task : ComputeTask) (at : IsoTimestamp) (actor : String)
      (o : Option Loaded)
      → Triple (HasOpen task.id) (bind_wake e id task at actor o) IsWakeReply
  bind_wake-Triple id task at actor none =
      stop-then task.id (λ _. pure-Triple λ t p. p) (λ x t p. p.0)
  bind_wake-Triple id task at actor (some l) =
      commit_wake-Triple id task actor l _ (mark_provisioned-bound l.ws task at)

  answer_wake-Triple :
      (id : WorkspaceId) (at : IsoTimestamp) (actor : String) (a : RunAnswer)
      → Triple (Answered a) (answer_wake e id at actor a) IsWakeReply
  answer_wake-Triple id at actor (placed task) =
      bind-After (find-After e id) (bind_wake-Triple id task at actor) (λ x t p. p.0)
  answer_wake-Triple id at actor (placement_refused m) = capacity-Triple id m
  answer_wake-Triple id at actor (run_failed m) =
      bind-Quiet (rollback-Quiet id) (λ _. pure-Triple λ t p. p) (λ x t p. p)

  pub launch-Triple :
      (id : WorkspaceId) (ws : Workspace) (at : IsoTimestamp) (actor : String)
      → Triple Claimed (launch_claimed_wake e id ws at actor) IsWakeReply
  unfolding launch_claimed_wake
  launch-Triple id ws at actor =
      bind-Triple {Q = Ran}
        (run_task-Triple e ws.latest_snapshot_id (λ k t p. ((p.0, p.1.0), refl)) (λ m t p. p.1)
          (λ m t p. p.1))
        (λ a. answer_wake-Triple id at actor a) (λ x t p. absurd p) (λ t p. absurd p)
