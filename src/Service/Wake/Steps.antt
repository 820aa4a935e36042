-- ===== src/Service/Wake/Steps.antt =====
-- The effects of a wake: which task is left open, and the steps that open and settle one.
use ecs_dev_desktop.Common.{
  ℕ, String, true, ◌||◌, Option, none, some, List, [], ◌∷◌, ◌≡◌, refl, arith, inl, inr, ◌==◌,
  string_eq, if◌then◌else◌,
}
use ecs_dev_desktop.Result.{ok, err, Result-cases}
use ecs_dev_desktop.Errors.{Message}
use ecs_dev_desktop.States.{WorkspaceId, TaskId, IsoTimestamp, provisioning, running, state_eq}
use ecs_dev_desktop.Lifecycle.{transition}
use ecs_dev_desktop.Resources.{assert_valid_workspace_resources}
use ecs_dev_desktop.Workspace.{Workspace}
use ecs_dev_desktop.Workspace.Launch.{mark_waking, mark_provisioned, defer_placement}
use ecs_dev_desktop.Service.World.{
  Database, Environment, World, M, Loaded, Effect, committed, snapshot_taken, task_started,
  task_stopped, removed, snapshot_deleted, Outcome, returned, thrown, unfinished, ComputeTask,
  AuditAction, branded, find, clock_now, persist_transition, stop_task, after_stop, resume, ◌>>=◌,
}
use ecs_dev_desktop.Service.Rules.{Log, Triple, bind-Triple, persist-Triple}
use ecs_dev_desktop.Service.Stop.{Reply}
use ecs_dev_desktop.Service.Wake.{is_up}

-- A commit that names the task, or a request to stop it, settles a launched task.
abbrev pub settle : Option TaskId → Option TaskId → Option TaskId
settle (some task) (some left) = if task == left then none else some left
settle _ left = left

-- The last task that was launched and is neither named by a commit nor stopped since.
abbrev pub unbound : List Effect → Option TaskId
unbound [] = none
unbound (task_started task s ∷ t) = some task
unbound (task_stopped task ∷ t) = settle (some task) (unbound t)
unbound (committed next v audit ∷ t) = settle next.task_id (unbound t)
unbound (snapshot_taken volume s ∷ t) = unbound t
unbound (removed id v actor ∷ t) = unbound t
unbound (snapshot_deleted s ∷ t) = unbound t

abbrev pub IsClaim : List Effect → Type 0
IsClaim (committed next v audit ∷ t) = next.state ≡ provisioning
IsClaim _ = ⊥

-- Each launch comes right after the commit of a record that claims it.
abbrev pub IsClaimed : Log
IsClaimed [] = Unit
IsClaimed (task_started task s ∷ t) = IsClaim t × IsClaimed t
IsClaimed (task_stopped task ∷ t) = IsClaimed t
IsClaimed (committed next v audit ∷ t) = IsClaimed t
IsClaimed (snapshot_taken volume s ∷ t) = IsClaimed t
IsClaimed (removed id v actor ∷ t) = IsClaimed t
IsClaimed (snapshot_deleted s ∷ t) = IsClaimed t

-- Nothing is left.
abbrev pub IsSettled : Log
IsSettled t = IsClaimed t × (unbound t ≡ none)

-- `task` may be left.
abbrev pub HasOpen : TaskId → Log
HasOpen task t = IsClaimed t × (unbound t ≡ some task)

pub settle-none : (task : Option TaskId) → settle task none ≡ none
settle-none none = refl
settle-none (some task) = refl

pub settle-same : (task : TaskId) → settle (some task) (some task) ≡ none
settle-same task = rw ((string_eq.test_iff task task).1 refl) refl

-- A wake that returns has left no task open; one that fails half-way may have. Both launch only what
-- they have claimed, and both end.
abbrev pub IsWakeReply : Outcome Reply → Log
IsWakeReply (returned (ok ws)) t =
    ((is_up ws.state || (ws.state == provisioning)) ≡ true) × IsSettled t
IsWakeReply (returned (err x)) t = IsSettled t
IsWakeReply (thrown m) t = IsClaimed t
IsWakeReply unfinished t = ⊥

abbrev pub Quiet : {A : Type 0} → Outcome A → Log
Quiet (returned a) t = IsSettled t
Quiet (thrown m) t = IsClaimed t
Quiet unfinished t = ⊥

pub mark_provisioned-bound :
    (ws : Workspace) (task : ComputeTask) (at : IsoTimestamp) (next : Workspace)
    → mark_provisioned ws task.volume_id task.id at task.ssh_host ≡ ok next
    → (next.state ≡ running) × (next.task_id ≡ some task.id)
unfolding mark_provisioned transition
mark_provisioned-bound ws task at next h = ground arith

pub mark_waking-claims :
    (ws : Workspace) (at : IsoTimestamp) (next : Workspace)
    → mark_waking ws at ≡ ok next
    → next.state ≡ provisioning
unfolding mark_waking transition
mark_waking-claims ws at next h = ground arith

pub defer_placement-waits :
    (ws : Workspace) (reason : Message) (at : IsoTimestamp) (next : Workspace)
    → defer_placement ws reason at ≡ ok next
    → next.state ≡ provisioning
unfolding defer_placement
defer_placement-waits ws reason at next h = ground arith

-- A step that cannot run out of fuel.
abbrev pub After : {A : Type 0} → Log → Outcome A → Log
After P (returned a) t = P t
After P (thrown m) t = P t
After P unfinished t = ⊥

branded-After : (P : Log) (o : Option Loaded) (t : List Effect) → P t → After P (branded o) t
branded-After P none t p = p
branded-After P (some l) t p =
    elim (Result-cases (assert_valid_workspace_resources l.ws.resources)) [
      | inl (r, h) ↦ rw (h, After) p
      | inr (m, h) ↦ rw (h, After) p
    ]

module _ {d : Database} {A B : Type 0} {P P' : Log} {R : Outcome B → Log} {m : M d A}
    {f : A → M d B} where
  pub bind-After :
      Triple P m (After P')
      → ((a : A) → Triple P' (f a) R)
      → ((x : Message) (t : List Effect) → P' t → R (thrown x) t)
      → Triple P (m >>= f) R
  bind-After h k x = bind-Triple h k x (λ t p. absurd p)

module _ {d : Database} {A B : Type 0} {P : Log} {R : Outcome B → Log} {m : M d A}
    {f : A → M d B} where
  pub bind-Quiet :
      Triple P m Quiet
      → ((a : A) → Triple IsSettled (f a) R)
      → ((x : Message) (t : List Effect) → IsClaimed t → R (thrown x) t)
      → Triple P (m >>= f) R
  bind-Quiet h k x = bind-Triple h k x (λ t p. absurd p)

module _ {d : Database} (e : Environment d) where
  pub find-After : {P : Log} (id : WorkspaceId) → Triple P (find e id) (After P)
  unfolding find
  find-After {P = P} id = record {
    holds = λ w p. branded-After P (d.get (resume e w).table id) w.trace p;
  }

  pub clock-After : {P : Log} → Triple P (clock_now e) (After P)
  unfolding clock_now
  clock-After = record { holds = λ w p. p }

  -- A commit while no task is left open leaves none open.
  pub commit-Quiet :
      (next : Workspace) (v : ℕ) (audit : Option (AuditAction × String))
      → Triple IsSettled (persist_transition e next v audit) Quiet
  commit-Quiet next v audit =
      persist-Triple e next v audit (λ t p. (p.0, rw p.1 (settle-none next.task_id))) (λ t p. p)
        (λ m t p. p.0)

  pub stop-After :
      {P R : Log} (task : TaskId)
      → ((t : List Effect) → P t → R (task_stopped task ∷ t))
      → Triple P (stop_task e task) (After R)
  unfolding stop_task
  stop-After {R = R} task h = record {
    holds = λ w p.
        answered R (record (resume e w) { trace = task_stopped task ∷ w.trace })
          (e.stops w.step task) (h w.trace p);
  }
    where
      answered :
          (R : Log) (w : World d) (x : Option Message)
          → R w.trace
          → After R (after_stop w x).0 (after_stop w x).1.trace
      answered R w none p = p
      answered R w (some m) p = p
