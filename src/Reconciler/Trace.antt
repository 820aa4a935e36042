-- ===== src/Reconciler/Trace.antt =====
-- services/reconciler/src/index.ts: the calls of the ports in their order. The ports are wrapped so that
-- each call is written to a log before it is made.
use ecs_dev_desktop.Common.{ℕ, String, Bool, Option, none, some, List, [], ◌∷◌, ◌++◌}
use ecs_dev_desktop.States.{WorkspaceId, VolumeId, SnapshotId, TaskId}
use ecs_dev_desktop.Reconciler.Action.{Outcome, Async}
use ecs_dev_desktop.Reconciler.Ports.{
  ReconcilerService, StorageProvider, ComputeProvider, ControlPlaneScaleConfig, ReconcilerDeps,
}

pub data Call : Type 0 where
  active_listed candidates_listed storage_referenced fleet_referenced tasks_referenced : Call
  secrets_referenced provisioning_listed deleting_listed stopping_listed errors_listed : Call
  snapshots_referenced volumes_listed snapshots_listed tasks_listed secrets_listed : Call
  activity_read owner_counts_reconciled : Call
  loss_reconciled snapshotted provisioning_recovered deleting_finished error_recovered :
      WorkspaceId → Call
  snapshot_lost_marked : WorkspaceId → Call
  stopped : WorkspaceId → Option ℕ → Call
  stop_finished : WorkspaceId → Bool → Call
  tombstones_purged : ℕ → Call
  volume_deleted : VolumeId → Call
  snapshot_deleted : SnapshotId → Call
  task_stopped : TaskId → Call
  secret_deleted : String → Call
  definitions_pruned : ℕ → Call
  service_described : String → Call
  service_scaled : String → ℕ → Call

-- A world with the log of the calls made in it, oldest first.
abbrev pub Logged : Type 0 → Type 0
Logged W = List Call × W

module _ {W A : Type 0} where
  abbrev pub within : List Call → Outcome A × W → Outcome A × Logged W
  within log (o, w) = (o, (log, w))

  unfoldable pub noting : Call → Async W A → Async (Logged W) A
  noting c m (log, w) = within (log ++ c ∷ []) (m w)

  abbrev pub noting_option : Call → Option (Async W A) → Option (Async (Logged W) A)
  noting_option c none = none
  noting_option c (some m) = some (noting c m)

  abbrev pub noting_each :
      {B : Type 0} → (B → Call) → Option (B → Async W A) → Option (B → Async (Logged W) A)
  noting_each c none = none
  noting_each c (some m) = some (λ x. noting (c x) (m x))

module _ {W : Type 0} where
  abbrev pub traced_service : ReconcilerService W → ReconcilerService (Logged W)
  traced_service s = record {
    list_active = noting active_listed s.list_active;
    reconcile_task_loss = λ id. noting (loss_reconciled id) (s.reconcile_task_loss id);
    stop = λ id ms. noting (stopped id ms) (s.stop id ms);
    list_snapshot_candidates = noting candidates_listed s.list_snapshot_candidates;
    snapshot = λ id. noting (snapshotted id) (s.snapshot id);
    list_referenced_storage = noting storage_referenced s.list_referenced_storage;
    list_fleet_references = noting fleet_referenced s.list_fleet_references;
    list_referenced_tasks = noting tasks_referenced s.list_referenced_tasks;
    list_runtime_secret_workspace_ids =
        noting secrets_referenced s.list_runtime_secret_workspace_ids;
    list_stuck_provisioning = noting provisioning_listed s.list_stuck_provisioning;
    recover_stuck_provisioning =
        λ id. noting (provisioning_recovered id) (s.recover_stuck_provisioning id);
    list_deleting = noting deleting_listed s.list_deleting;
    finish_deleting = λ id. noting (deleting_finished id) (s.finish_deleting id);
    list_stopping = noting stopping_listed s.list_stopping;
    finish_stop = λ id b. noting (stop_finished id b) (s.finish_stop id b);
    list_recoverable_errors = noting errors_listed s.list_recoverable_errors;
    recover_error = λ id. noting (error_recovered id) (s.recover_error id);
    list_snapshot_references = noting snapshots_referenced s.list_snapshot_references;
    mark_snapshot_lost_for = λ id. noting (snapshot_lost_marked id) (s.mark_snapshot_lost_for id);
    reconcile_owner_counts = noting owner_counts_reconciled s.reconcile_owner_counts;
    purge_expired_tombstones = λ ms. noting (tombstones_purged ms) (s.purge_expired_tombstones ms);
  }

  abbrev pub traced_storage : StorageProvider W → StorageProvider (Logged W)
  traced_storage s = record {
    list_volumes = noting volumes_listed s.list_volumes;
    list_snapshots = noting snapshots_listed s.list_snapshots;
    delete_volume = λ id. noting (volume_deleted id) (s.delete_volume id);
    delete_snapshot = λ id. noting (snapshot_deleted id) (s.delete_snapshot id);
  }

  abbrev pub traced_compute : Option (ComputeProvider W) → Option (ComputeProvider (Logged W))
  traced_compute none = none
  traced_compute (some c) = some (record {
    stop_task = λ id. noting (task_stopped id) (c.stop_task id);
    list_workspace_tasks = noting_option tasks_listed c.list_workspace_tasks;
    list_workspace_agent_secrets = noting_option secrets_listed c.list_workspace_agent_secrets;
    delete_agent_secret = noting_each secret_deleted c.delete_agent_secret;
    prune_task_definitions = noting_each definitions_pruned c.prune_task_definitions;
  })

  abbrev pub traced_config : ControlPlaneScaleConfig W → ControlPlaneScaleConfig (Logged W)
  traced_config c = record {
    describe_service = λ name. noting (service_described name) (c.describe_service name);
    scale_service = λ name n. noting (service_scaled name n) (c.scale_service name n);
    read_last_activity = noting activity_read c.read_last_activity;
    service_name = c.service_name;
    idle_threshold_ms = c.idle_threshold_ms;
  }

  abbrev pub traced_control_plane :
      Option (ControlPlaneScaleConfig W) → Option (ControlPlaneScaleConfig (Logged W))
  traced_control_plane none = none
  traced_control_plane (some c) = some (traced_config c)

  abbrev pub traced : ReconcilerDeps W → ReconcilerDeps (Logged W)
  traced deps = record {
    service = traced_service deps.service;
    storage = traced_storage deps.storage;
    compute = traced_compute deps.compute;
    control_plane = traced_control_plane deps.control_plane;
    clock = λ (log, w). deps.clock w;
    idle_threshold_ms = deps.idle_threshold_ms;
    snapshot_interval_ms = deps.snapshot_interval_ms;
    early_snapshot_interval_ms = deps.early_snapshot_interval_ms;
    early_session_ms = deps.early_session_ms;
    task_def_keep = deps.task_def_keep;
    converge_budget = deps.converge_budget;
    gc_grace_ms = deps.gc_grace_ms;
    undelete_retention_ms = deps.undelete_retention_ms;
    provisioning_timeout_ms = deps.provisioning_timeout_ms;
  }
