-- ===== src/Reconciler/Ports.antt =====
-- services/reconciler/src/index.ts: the ports of the reconciler, which are its parameters, and its
-- options. A call of a port is an action on a world of which nothing is assumed.
use ecs_dev_desktop.Common.{ℕ, ◌*◌, String, Bool, Option, List, or_else}
use ecs_dev_desktop.Result.{Result}
use ecs_dev_desktop.Errors.{DomainError}
use ecs_dev_desktop.States.{WorkspaceId, VolumeId, SnapshotId, TaskId, IsoTimestamp}
use ecs_dev_desktop.Maintenance.{
  VolumeRef, SnapshotRef, WorkspaceTaskRef, WorkspaceAgentSecretRef, SnapshotCandidate,
}
use ecs_dev_desktop.Scale.{ParsedInstant}
use ecs_dev_desktop.Reconciler.{ActiveWorkspace}
use ecs_dev_desktop.Reconciler.Action.{Async}

pub record ReferencedStorage : Type 0 where
  pub volume_ids : List VolumeId
  pub snapshot_ids : List SnapshotId

pub record FleetReferences : Type 0 where
  pub storage : ReferencedStorage
  pub task_ids : List TaskId
  pub secret_workspace_ids : List WorkspaceId

pub record SnapshotReference : Type 0 where
  pub id : WorkspaceId
  pub snapshot_id : SnapshotId

-- The value of a result is read only by the drift sweep: whether the task was lost.
pub record ReconcilerService (W : Type 0) : Type 0 where
  pub list_active : Async W (List ActiveWorkspace)
  pub reconcile_task_loss : WorkspaceId → Async W (Result Bool DomainError)
  pub stop : WorkspaceId → Option ℕ → Async W (Result Unit DomainError)
  pub list_snapshot_candidates : Async W (List SnapshotCandidate)
  pub snapshot : WorkspaceId → Async W (Result Unit DomainError)
  pub list_referenced_storage : Async W ReferencedStorage
  pub list_fleet_references : Async W FleetReferences
  pub list_referenced_tasks : Async W (List TaskId)
  pub list_runtime_secret_workspace_ids : Async W (List WorkspaceId)
  pub list_stuck_provisioning : Async W (List ActiveWorkspace)
  pub recover_stuck_provisioning : WorkspaceId → Async W (Result Unit DomainError)
  pub list_deleting : Async W (List WorkspaceId)
  pub finish_deleting : WorkspaceId → Async W (Result Unit DomainError)
  pub list_stopping : Async W (List WorkspaceId)
  pub finish_stop : WorkspaceId → Bool → Async W (Result Unit DomainError)
  pub list_recoverable_errors : Async W (List WorkspaceId)
  pub recover_error : WorkspaceId → Async W (Result Unit DomainError)
  pub list_snapshot_references : Async W (List SnapshotReference)
  pub mark_snapshot_lost_for : WorkspaceId → Async W (Result Unit DomainError)
  pub reconcile_owner_counts : Async W ℕ
  pub purge_expired_tombstones : ℕ → Async W ℕ

pub record StorageProvider (W : Type 0) : Type 0 where
  pub list_volumes : Async W (List VolumeRef)
  pub list_snapshots : Async W (List SnapshotRef)
  pub delete_volume : VolumeId → Async W Unit
  pub delete_snapshot : SnapshotId → Async W Unit

pub record ComputeProvider (W : Type 0) : Type 0 where
  pub stop_task : TaskId → Async W Unit
  pub list_workspace_tasks : Option (Async W (List WorkspaceTaskRef))
  pub list_workspace_agent_secrets : Option (Async W (List WorkspaceAgentSecretRef))
  pub delete_agent_secret : Option (String → Async W Unit)
  pub prune_task_definitions : Option (ℕ → Async W ℕ)

pub record ControlPlaneScaleConfig (W : Type 0) : Type 0 where
  -- The desired count of the service, which is all that is read of its description.
  pub describe_service : String → Async W ℕ
  pub scale_service : String → ℕ → Async W Unit
  pub read_last_activity : Async W (Option ParsedInstant)
  pub service_name : String
  pub idle_threshold_ms : Option ℕ

pub record ReconcilerDeps (W : Type 0) : Type 0 where
  pub service : ReconcilerService W
  pub storage : StorageProvider W
  pub compute : Option (ComputeProvider W)
  pub control_plane : Option (ControlPlaneScaleConfig W)
  pub clock : W → IsoTimestamp
  pub idle_threshold_ms : Option ℕ
  pub snapshot_interval_ms : Option ℕ
  pub early_snapshot_interval_ms : Option ℕ
  pub early_session_ms : Option ℕ
  pub task_def_keep : Option ℕ
  pub converge_budget : Option ℕ
  pub gc_grace_ms : Option ℕ
  pub undelete_retention_ms : Option ℕ
  pub provisioning_timeout_ms : Option ℕ

-- The fields of the class, which its constructor fills.
pub record Reconciler : Type 0 where
  pub idle_threshold_ms : ℕ
  pub snapshot_interval_ms : ℕ
  pub early_snapshot_interval_ms : ℕ
  pub early_session_ms : ℕ
  pub task_def_keep : ℕ
  pub converge_budget : ℕ
  pub gc_grace_ms : ℕ
  pub undelete_retention_ms : ℕ
  pub provisioning_timeout_ms : ℕ

abbrev pub new_reconciler : {W : Type 0} → ReconcilerDeps W → Reconciler
new_reconciler deps = record {
  idle_threshold_ms = or_else deps.idle_threshold_ms (5 * 60 * 1_000);
  snapshot_interval_ms = or_else deps.snapshot_interval_ms (5 * 60 * 1_000);
  early_snapshot_interval_ms = or_else deps.early_snapshot_interval_ms (5 * 60 * 1_000);
  early_session_ms = or_else deps.early_session_ms (60 * 60 * 1_000);
  task_def_keep = or_else deps.task_def_keep 20;
  converge_budget = or_else deps.converge_budget 50;
  gc_grace_ms = or_else deps.gc_grace_ms (60 * 60 * 1_000);
  undelete_retention_ms = or_else deps.undelete_retention_ms (7 * 24 * 60 * 60 * 1_000);
  provisioning_timeout_ms = or_else deps.provisioning_timeout_ms (10 * 60 * 1_000);
}
