-- ===== src/Service/Create/Bound.antt =====
-- What the launch of a reserved workspace does with its task.
use ecs_dev_desktop.Common.{
  Bool, true, false, Option, none, some, List, ◌≡◌, refl, arith, inl, inr, Bool-cases,
}
use ecs_dev_desktop.Result.{ok, err}
use ecs_dev_desktop.Errors.{launch_failed}
use ecs_dev_desktop.States.{WorkspaceId, TaskId, IsoTimestamp, provisioning, state_eq}
use ecs_dev_desktop.Lifecycle.{transition}
use ecs_dev_desktop.Workspace.{Workspace}
use ecs_dev_desktop.Workspace.Launch.{mark_provisioned}
use ecs_dev_desktop.Service.World.{
  Database, Environment, World, Loaded, Effect, Outcome, returned, thrown, unfinished, RunAnswer,
  placed, placement_refused, run_failed, ComputeTask,
}
use ecs_dev_desktop.Service.Rules.{
  Log, Triple, bind-Triple, pure-Triple, caught-Triple, persist-Triple, run_task-Triple,
}
use ecs_dev_desktop.Service.Stop.{Reply}
use ecs_dev_desktop.Service.Wake.Steps.{
  unbound, IsSettled, IsWakeReply, settle-same, After, find-After, clock-After, bind-After,
  stop-After,
}
use ecs_dev_desktop.Service.Wake.{wait_for_capacity, record_launch_failure}
use ecs_dev_desktop.Service.Wake.Launches.{capacity-Triple, failure-Triple}
use ecs_dev_desktop.Service.Create.{
  moved_on, stop_leaked, settle_launch, commit_launch, bind_launch, answer_launch, launch_reserved,
}

abbrev Closed : Log
Closed t = unbound t ≡ none

abbrev Launched : TaskId → Log
Launched task t = unbound t ≡ some task

-- A launch that returns has left no task open.
abbrev pub IsLaunchReply : Outcome Reply → Log
IsLaunchReply (returned r) t = unbound t ≡ none
IsLaunchReply (thrown m) t = Unit
IsLaunchReply unfinished t = ⊥

-- What the outcome of the commit, and the answer of the launch, leave.
abbrev Written : TaskId → Outcome Bool → Log
Written task (returned true) t = Closed t
Written task unfinished t = ⊥
Written task _ t = Launched task t

abbrev Ran : Outcome RunAnswer → Log
Ran (returned (placed task)) t = Launched task.id t
Ran (returned _) t = IsSettled t
Ran _ t = ⊥

from_wake : (o : Outcome Reply) (t : List Effect) → IsWakeReply o t → IsLaunchReply o t
from_wake (returned (ok ws)) t p = p.1.1
from_wake (returned (err x)) t p = p.1
from_wake (thrown m) t p = tt
from_wake unfinished t p = p

-- A record that has not moved on takes the task.
unmoved_binds :
    (ws : Workspace) (task : ComputeTask) (at : IsoTimestamp)
    → moved_on ws ≡ false
    → (next : Workspace) × (mark_provisioned ws task.volume_id task.id at task.ssh_host ≡ ok next)
      × (next.task_id ≡ some task.id)
unfolding mark_provisioned transition
unmoved_binds ws task at h =
    let state : ws.state ≡ provisioning = ground arith in rw state (_, refl, refl)

closed : (o : Outcome (Unit {0})) (t : List Effect) → After Closed o t → Closed t
closed (returned u) t p = p
closed (thrown m) t p = p
closed unfinished t p = absurd p

module _ {d : Database} (e : Environment d) where
  leaked-After :
      (task : ComputeTask) → Triple (Launched task.id) (stop_leaked e task) (After Closed)
  leaked-After task =
      bind-Triple (caught-Triple (stop-After e task.id λ t p. rw p (settle-same task.id)))
        (λ o. pure-Triple λ t p. closed o t p) (λ x t p. absurd p) (λ t p. p)

  settle_launch-Triple :
      (id : WorkspaceId) (task : ComputeTask) (next : Workspace) (o : Outcome Bool)
      → Triple (Written task.id o) (settle_launch e id task next o) IsLaunchReply
  settle_launch-Triple id task next (returned true) = pure-Triple λ t p. p
  settle_launch-Triple id task next (returned false) =
      bind-After (leaked-After task) (λ _. pure-Triple λ t p. p) (λ x t p. tt)
  settle_launch-Triple id task next (thrown m) =
      bind-After (leaked-After task) (λ _. record { holds = λ w p. tt }) (λ x t p. tt)
  settle_launch-Triple id task next unfinished = record { holds = λ w p. absurd p }

  commit_launch-Triple :
      (id : WorkspaceId) (task : ComputeTask) (l : Loaded) (next : Workspace)
      → next.task_id ≡ some task.id
      → Triple (Launched task.id) (commit_launch e id task l (ok next)) IsLaunchReply
  commit_launch-Triple id task l next h =
      bind-Triple
        (caught-Triple {Q = Written task.id} (
          persist-Triple e next l.version none (λ t p. rw (p, h) (settle-same task.id)) (λ t p. p)
            (λ m t p. p)))
        (settle_launch-Triple id task next) (λ x t p. absurd p) (λ t p. absurd p)

  bind_launch-Triple :
      (id : WorkspaceId) (task : ComputeTask) (at : IsoTimestamp) (o : Option Loaded)
      → Triple (Launched task.id) (bind_launch e id task at o) IsLaunchReply
  bind_launch-Triple id task at none =
      bind-After (leaked-After task) (λ _. pure-Triple λ t p. p) (λ x t p. tt)
  bind_launch-Triple id task at (some l) = elim (Bool-cases (moved_on l.ws)) [
    | inl m ↦ rw m (bind-After (leaked-After task) (λ _. pure-Triple λ t p. p) (λ x t p. tt))
    | inr m ↦
        let (next, bound, names) = unmoved_binds l.ws task at m in
        rw (m, bound) (commit_launch-Triple id task l next names)
  ]

  answer_launch-Triple :
      (id : WorkspaceId) (a : RunAnswer)
      → Triple (Ran (returned a)) (answer_launch e id a) IsLaunchReply
  answer_launch-Triple id (placed task) =
      bind-After (clock-After e)
        (λ at. bind-After (find-After e id) (bind_launch-Triple id task at) (λ x t p. tt))
        (λ x t p. tt)
  answer_launch-Triple id (placement_refused m) = record {
    holds = λ w p.
        let (o, w') = wait_for_capacity e id m w in
        from_wake o w'.trace ((capacity-Triple e id m).holds w p);
  }
  answer_launch-Triple id (run_failed m) = record {
    holds = λ w p.
        let (o, w') = record_launch_failure e id (launch_failed m) w in
        from_wake o w'.trace ((failure-Triple e id (launch_failed m)).holds w p);
  }

  -- If no launched task is left open, and every launch so far came right after the commit of its claim,
  -- the launch of a reserved workspace ends, and when it returns no task is left open: the task that it
  -- launched is named by a committed record or was asked to stop.
  pub launch_binds_or_stops :
      (id : WorkspaceId) (w : World d)
      → IsSettled w.trace
      → IsLaunchReply (launch_reserved e id w).0 (launch_reserved e id w).1.trace
  unfolding launch_reserved
  launch_binds_or_stops id w p = launching.holds w p
    where
      launching : Triple IsSettled (launch_reserved e id) IsLaunchReply
      launching =
          bind-After (find-After e id)
            (elim [
              | none ↦ pure-Triple λ t q. q.1
              | some l ↦ elim (Bool-cases (moved_on l.ws)) [
                | inl m ↦ rw m (pure-Triple λ t q. q.1)
                | inr m ↦ rw m (
                    bind-Triple {Q = Ran}
                      (run_task-Triple e none (λ k t q. refl) (λ x t q. q) (λ x t q. q))
                      (answer_launch-Triple id) (λ x t q. tt) (λ t q. q))
              ]
            ])
            (λ x t q. tt)
