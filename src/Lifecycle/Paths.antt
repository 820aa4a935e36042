-- ===== src/Lifecycle/Paths.antt =====
-- What the state machine allows over several events, and what the interface may offer.
use ecs_dev_desktop.Common.{
  Option, none, some, true, List, [], ◌∷◌, ◌≡◌, ◌⊎◌, ◌↔◌, inl, inr, arith, includes, ◌||◌, Any,
  length, ◌≤◌,
}
use ecs_dev_desktop.Result.{Result, ok, err, is_ok, and_then, Result-cases}
use ecs_dev_desktop.Errors.{DomainError}
use ecs_dev_desktop.States.{
  WorkspaceState, provisioning, running, idle, stopped, stopping, deleting, terminated, error,
  WorkspaceEvent, provisioned, activity, request_stop, cancel_stop, wake, terminate, request_delete,
  recover, undelete, retry, WorkspaceAction, action_eq,
}
use ecs_dev_desktop.Lifecycle.{transition, can, workspace_actions}
use ecs_dev_desktop.Connect.{ConnectAction, plan_connect, ready, pending}

-- The event that the service fires for an action of the interface; a snapshot fires none.
abbrev pub action_event : WorkspaceAction → Option WorkspaceEvent
action_event WorkspaceAction.start = some wake
action_event WorkspaceAction.stop = some request_stop
action_event WorkspaceAction.cancel_stop = some cancel_stop
action_event WorkspaceAction.snapshot = none
action_event WorkspaceAction.delete = some request_delete
action_event WorkspaceAction.undelete = some undelete
action_event WorkspaceAction.retry = some retry

-- An action that fires an event is offered in exactly the states that have a transition for it.
pub offered_iff_legal :
    (s : WorkspaceState) (a : WorkspaceAction) (e : WorkspaceEvent)
    → action_event a ≡ some e
    → includes (workspace_actions s) a ≡ is_ok (transition s e)
unfolding workspace_actions transition
offered_iff_legal s a e h = ground arith

-- The connect decision follows the state machine: wake where a wake is legal, wait where a launch
-- can complete, connect where a stop can be requested or canceled, and refuse in all other states.
pub plan_connect_agrees :
    (s : WorkspaceState)
    → ((plan_connect s ≡ ConnectAction.wake) ↔ (can s wake ≡ true))
      × ((plan_connect s ≡ pending) ↔ (can s provisioned ≡ true))
      × ((plan_connect s ≡ ready) ↔ ((can s request_stop || can s cancel_stop) ≡ true))
unfolding plan_connect can
plan_connect_agrees s = ground arith

-- Fire the events one after another; the first illegal one ends the run.
abbrev pub run_events : WorkspaceState → List WorkspaceEvent → Result WorkspaceState DomainError
run_events s [] = ok s
run_events s (e ∷ es) = and_then (transition s e) (λ t. run_events t es)

-- Two events at most.
abbrev pub delete_path : WorkspaceState → List WorkspaceEvent
delete_path terminated = []
delete_path deleting = terminate ∷ []
delete_path _ = request_delete ∷ terminate ∷ []

-- Every workspace can be deleted: by a requested delete and its teardown, whatever its state.
pub delete_path_ends : (s : WorkspaceState) → run_events s (delete_path s) ≡ ok terminated
unfolding transition
delete_path_ends s = ground arith

abbrev pub revive_path : WorkspaceState → List WorkspaceEvent
revive_path running = []
revive_path idle = activity ∷ []
revive_path stopping = cancel_stop ∷ []
revive_path provisioning = provisioned ∷ []
revive_path stopped = wake ∷ provisioned ∷ []
revive_path error = recover ∷ wake ∷ provisioned ∷ []
revive_path terminated = undelete ∷ wake ∷ provisioned ∷ []
revive_path deleting = terminate ∷ undelete ∷ wake ∷ provisioned ∷ []

-- No state is a dead end: from each of them the machine has a run of at most four events to `running`.
pub revive_path_runs :
    (s : WorkspaceState)
    → (run_events s (revive_path s) ≡ ok running) × (length (revive_path s) ≤ 4)
unfolding transition
revive_path_runs s = ground arith

abbrev pub IsDeleted : WorkspaceState → Type 0
IsDeleted s = (s ≡ deleting) ⊎ (s ≡ terminated)

IsDeleted-transition :
    (s t : WorkspaceState) (e : WorkspaceEvent)
    → IsDeleted s
    → transition s e ≡ ok t
    → (e ≡ undelete) ⊎ IsDeleted t
unfolding transition
IsDeleted-transition s t e h k = ground arith

-- A run of events from a deleted state ends in a deleted state, unless one of the events is an undelete.
pub run_events-IsDeleted :
    (s : WorkspaceState) (es : List WorkspaceEvent) (t : WorkspaceState)
    → IsDeleted s
    → run_events s es ≡ ok t
    → Any (λ e. e ≡ undelete) es ⊎ IsDeleted t
run_events-IsDeleted s [] t h k = inr (ground arith)
run_events-IsDeleted s (e ∷ es) t h k = elim (Result-cases (transition s e)) [
  | inl (u, q) ↦ elim (IsDeleted-transition s u e h q) [
    | inl p ↦ inl (inl p)
    | inr d ↦ elim (run_events-IsDeleted u es t d (rw q at k)) [
      | inl a ↦ inl (inr a)
      | inr d' ↦ inr d'
    ]
  ]
  | inr (x, q) ↦ let k' : err x ≡ ok t = rw q at k in cc
]
