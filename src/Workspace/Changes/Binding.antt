-- ===== src/Workspace/Changes/Binding.antt =====
-- Invariants of a record: which fields are set in which state, under every change.
use ecs_dev_desktop.Common.{
  ◌≡◌, ◌⊎◌, inl, inr, Bool, true, false, none, some, List, [], ◌∷◌, is_some, arith,
}
use ecs_dev_desktop.Result.{ok, err, Result-cases}
use ecs_dev_desktop.States.{WorkspaceState, running, idle, stopped, stopping, deleting, terminated}
use ecs_dev_desktop.Resources.{assert_valid_workspace_resources}
use ecs_dev_desktop.Workspace.{
  Workspace, ReserveParams, ProvisionParams, reserve, provision, deleted,
}
use ecs_dev_desktop.Workspace.Changes.{Change, apply, apply_all, stopping_marked}

-- The states with a task that runs.
abbrev pub is_live : WorkspaceState → Bool
is_live running = true
is_live idle = true
is_live stopping = true
is_live _ = false

-- The states with no runtime resource.
abbrev pub is_parked : WorkspaceState → Bool
is_parked stopped = true
is_parked terminated = true
is_parked _ = false

pub record IsConsistent (ws : Workspace) : Type 0 where
  pub task_bound : is_live ws.state ≡ true → is_some ws.task_id ≡ true
  pub volume_bound : is_live ws.state ≡ true → is_some ws.volume_id ≡ true
  pub task_released : is_parked ws.state ≡ true → ws.task_id ≡ none
  pub volume_released : is_parked ws.state ≡ true → ws.volume_id ≡ none
  pub host_released : is_parked ws.state ≡ true → ws.ssh_host ≡ none
  pub stop_dated : ws.state ≡ stopping → is_some ws.stop_requested_at ≡ true
  pub delete_dated : ws.state ≡ deleting → is_some ws.delete_requested_at ≡ true
  pub delete_intended : ws.state ≡ deleting → ws.desired_state ≡ some deleted
  pub delete_shown :
      ws.desired_state ≡ some deleted → (ws.state ≡ deleting) ⊎ (ws.state ≡ terminated)
  pub end_dated : ws.state ≡ terminated → is_some ws.terminated_at ≡ true
  pub snapshot_dated : is_some ws.latest_snapshot_id ≡ is_some ws.latest_snapshot_at

-- A reserved record satisfies the invariants.
pub reserve-IsConsistent :
    (p : ReserveParams) (ws : Workspace) → reserve p ≡ ok ws → IsConsistent ws
unfolding reserve assert_valid_workspace_resources
reserve-IsConsistent p ws h = ground arith

-- Every accepted change keeps the invariants.
pub apply-IsConsistent :
    (ws : Workspace) (c : Change) (next : Workspace)
    → IsConsistent ws
    → apply ws c ≡ ok next
    → IsConsistent next
unfolding apply
apply-IsConsistent ws (stopping_marked at by) next v h = ground arith
apply-IsConsistent ws _ next v h = ground arith

apply_all-IsConsistent :
    (ws : Workspace) (cs : List Change) (next : Workspace)
    → IsConsistent ws
    → apply_all ws cs ≡ ok next
    → IsConsistent next
unfolding apply_all
apply_all-IsConsistent ws [] next v h = ground arith
apply_all-IsConsistent ws (c ∷ cs) next v h = elim (Result-cases (apply ws c)) [
  | inl (w, e) ↦
      apply_all-IsConsistent w cs next (apply-IsConsistent ws c w v e) (rw (e, apply_all) at h)
  | inr (x, e) ↦ let refused : err x ≡ ok next = rw (e, apply_all) at h in cc
]

-- After any history of accepted changes of a reserved workspace the invariants hold: a running, idle
-- or stopping record names a task and a volume; a stopped or terminated one names neither, and no
-- host; a stopping, deleting or terminated one carries the time of its request or its end; an intended
-- deletion is one that is under way or done; and a snapshot is dated exactly when there is one.
pub history-IsConsistent :
    (p : ReserveParams) (ws : Workspace) (cs : List Change) (next : Workspace)
    → reserve p ≡ ok ws
    → apply_all ws cs ≡ ok next
    → IsConsistent next
history-IsConsistent p ws cs next r h =
    apply_all-IsConsistent ws cs next (reserve-IsConsistent p ws r) h

-- A record that is provisioned at once satisfies them too.
pub provision-IsConsistent :
    (p : ProvisionParams) (ws : Workspace) → provision p ≡ ok ws → IsConsistent ws
unfolding provision reserve assert_valid_workspace_resources
provision-IsConsistent p ws h = ground arith
