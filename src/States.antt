-- ===== src/States.antt =====
-- packages/core/src/lifecycle/workspace-state-machine.ts: the states, the events and the actions,
-- and the branded identifiers of packages/core/src/domain/ids.ts. A brand is its string; an
-- instant is the number of milliseconds that `Date.parse` reads from its ISO-8601 text, which
-- every writer makes with `toISOString`.
use ecs_dev_desktop.Common.{ℕ, String, List, [], ◌∷◌, Bool, true, false, ◌≡◌, ◌↔◌, arith, StrictEq}

abbrev pub WorkspaceId : Type 0
WorkspaceId = String

abbrev pub OwnerId : Type 0
OwnerId = String

abbrev pub BaseImage : Type 0
BaseImage = String

abbrev pub VolumeId : Type 0
VolumeId = String

abbrev pub SnapshotId : Type 0
SnapshotId = String

abbrev pub TaskId : Type 0
TaskId = String

abbrev pub IsoTimestamp : Type 0
IsoTimestamp = ℕ

pub data WorkspaceState : Type 0 where
  provisioning running idle stopped stopping deleting terminated error : WorkspaceState

pub data WorkspaceEvent : Type 0 where
  provisioned activity idle_timeout stop request_stop cancel_stop wake terminate request_delete
        recover undelete retry fail :
      WorkspaceEvent

pub data WorkspaceAction : Type 0 where
  start stop cancel_stop snapshot delete undelete retry : WorkspaceAction

abbrev pub workspace_states : List WorkspaceState
workspace_states =
    provisioning ∷ running ∷ idle ∷ stopped ∷ stopping ∷ deleting ∷ terminated ∷ error ∷ []

-- `===` on states.
abbrev state_beq : WorkspaceState → WorkspaceState → Bool
state_beq provisioning provisioning = true
state_beq running running = true
state_beq idle idle = true
state_beq stopped stopped = true
state_beq stopping stopping = true
state_beq deleting deleting = true
state_beq terminated terminated = true
state_beq error error = true
state_beq _ _ = false

pub state_beq_iff : (s t : WorkspaceState) → (state_beq s t ≡ true) ↔ (s ≡ t)
state_beq_iff s t = ground arith

instance abbrev pub state_eq : StrictEq WorkspaceState
state_eq = record { test = state_beq; test_iff = state_beq_iff }

abbrev action_beq : WorkspaceAction → WorkspaceAction → Bool
action_beq start start = true
action_beq WorkspaceAction.stop WorkspaceAction.stop = true
action_beq WorkspaceAction.cancel_stop WorkspaceAction.cancel_stop = true
action_beq snapshot snapshot = true
action_beq delete delete = true
action_beq WorkspaceAction.undelete WorkspaceAction.undelete = true
action_beq WorkspaceAction.retry WorkspaceAction.retry = true
action_beq _ _ = false

pub action_beq_iff : (a b : WorkspaceAction) → (action_beq a b ≡ true) ↔ (a ≡ b)
action_beq_iff a b = ground arith

instance abbrev pub action_eq : StrictEq WorkspaceAction
action_eq = record { test = action_beq; test_iff = action_beq_iff }
