-- ===== src/Errors.antt =====
-- packages/core/src/domain/errors.ts. A reason is the constructor of its message with the values
-- that the template puts in; `text` is a message that comes from outside.
use ecs_dev_desktop.Common.{ℕ, String}
use ecs_dev_desktop.States.{WorkspaceId, WorkspaceState, WorkspaceEvent}

pub data Message : Type 0 where
  text : String → Message
  invalid_transition : WorkspaceEvent → WorkspaceState → Message
  no_retained_snapshot : WorkspaceId → Message
  cannot_share : WorkspaceState → Message
  not_waiting_for_placement : WorkspaceId → WorkspaceState → Message
  placement_exhausted : WorkspaceId → ℕ → Message → Message
  cannot_restore : WorkspaceId → WorkspaceState → Message
  cannot_reconcile_task_loss : WorkspaceId → WorkspaceState → Message
  no_task_bound : WorkspaceId → Message
  cannot_record_activity : WorkspaceState → Message
  cannot_recover : WorkspaceId → WorkspaceState → Message
  no_snapshot_to_recover : WorkspaceId → Message
  cannot_mark_snapshot_lost : WorkspaceId → WorkspaceState → Message
  no_snapshot_referenced : WorkspaceId → Message
  lost_update : WorkspaceId → Message
  lost_to : WorkspaceId → WorkspaceState → Message
  always_on_skipped : WorkspaceId → Message
  recently_active : WorkspaceId → ℕ → Message
  no_snapshot_to_hydrate : WorkspaceId → Message
  wake_incomplete : WorkspaceId → WorkspaceState → Message
  wake_timed_out : WorkspaceId → Message
  launch_failed : Message → Message
  no_retry_due : WorkspaceId → Message
  cannot_connect : WorkspaceId → WorkspaceState → Message
  cannot_purge : WorkspaceId → WorkspaceState → Message
  cannot_snapshot : WorkspaceId → WorkspaceState → Message
  cannot_heartbeat : WorkspaceId → WorkspaceState → Message
  no_active_volume : WorkspaceId → Message
  invalid_resources : ℕ → ℕ → ℕ → Message

pub data DomainError : Type 0 where
  not_found : String → String → DomainError
  conflict invalid unavailable : Message → DomainError
