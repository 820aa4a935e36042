-- ===== src/Reconciler/Tick.antt =====
-- services/reconciler/src/index.ts: one maintenance tick, its sweeps in their order.
use ecs_dev_desktop.Common.{ℕ, some}
use ecs_dev_desktop.Reconciler.Action.{Outcome, returned, thrown, Async, pure, attempted, ◌>>=◌}
use ecs_dev_desktop.Reconciler.Ports.{ReconcilerDeps, FleetReferences, new_reconciler}
use ecs_dev_desktop.Reconciler.Sweeps.{
  SweepResult, detect_drift, detect_storage_drift, recover_provisioning, finish_deletions,
  finish_stopping, recover_errors, run_once, snapshot_due,
}
use ecs_dev_desktop.Reconciler.Reapers.{
  GcResult, ReapResult, PruneResult, ControlPlaneIdleResult, collect_garbage, reap_orphan_tasks,
  reap_orphan_secrets, prune_task_definitions, control_plane_idle_shutdown,
}

pub record MaintenanceResult : Type 0 where
  pub provisioning : SweepResult
  pub drift : SweepResult
  pub storage_drift : SweepResult
  pub recovered : SweepResult
  pub deletions : SweepResult
  pub stopping : SweepResult
  pub purged : ℕ
  pub idle : SweepResult
  pub snapshots : SweepResult
  pub tasks : ReapResult
  pub secrets : ReapResult
  pub task_defs : PruneResult
  pub gc : GcResult
  pub quota_drift_corrected : ℕ
  pub control_plane : ControlPlaneIdleResult

-- The object that the tick returns.
abbrev pub tick_result :
    SweepResult
    → SweepResult
    → SweepResult
    → SweepResult
    → SweepResult
    → SweepResult
    → ℕ
    → SweepResult
    → SweepResult
    → ReapResult
    → ReapResult
    → PruneResult
    → GcResult
    → ℕ
    → ControlPlaneIdleResult
    → MaintenanceResult
tick_result provisioning drift storage_drift recovered deletions stopping purged idle snapshots
      tasks secrets task_defs gc quota_drift_corrected control_plane =
    record {
      provisioning = provisioning;
      drift = drift;
      storage_drift = storage_drift;
      recovered = recovered;
      deletions = deletions;
      stopping = stopping;
      purged = purged;
      idle = idle;
      snapshots = snapshots;
      tasks = tasks;
      secrets = secrets;
      task_defs = task_defs;
      gc = gc;
      quota_drift_corrected = quota_drift_corrected;
      control_plane = control_plane;
    }

abbrev pub count_purged : Outcome ℕ → ℕ
count_purged (returned n) = n
count_purged (thrown _) = 0

module _ {W : Type 0} (deps : ReconcilerDeps W) where
  unfoldable pub purge_tombstones : Async W ℕ
  unfolding ◌>>=◌
  purge_tombstones =
      attempted (deps.service.purge_expired_tombstones (new_reconciler deps).undelete_retention_ms)
      >>= λ o. pure (count_purged o)

  unfoldable pub reconcile_owner_counts : Async W ℕ
  reconcile_owner_counts = deps.service.reconcile_owner_counts

  -- The sweeps after the one scan of the references.
  unfoldable pub reap_all :
      FleetReferences
      → (ReapResult
          → ReapResult
          → PruneResult
          → GcResult
          → ℕ
          → ControlPlaneIdleResult
          → MaintenanceResult)
      → Async W MaintenanceResult
  unfolding ◌>>=◌
  reap_all references result = do
    tasks ← reap_orphan_tasks deps (some references)
    secrets ← reap_orphan_secrets deps (some references)
    task_defs ← prune_task_definitions deps
    gc ← collect_garbage deps (some references)
    quota_drift_corrected ← reconcile_owner_counts
    control_plane ← control_plane_idle_shutdown deps
    pure (result tasks secrets task_defs gc quota_drift_corrected control_plane)

  unfoldable pub run_maintenance : Async W MaintenanceResult
  unfolding ◌>>=◌
  run_maintenance = do
    provisioning ← recover_provisioning deps
    drift ← detect_drift deps
    storage_drift ← detect_storage_drift deps
    recovered ← recover_errors deps
    deletions ← finish_deletions deps
    stopping ← finish_stopping deps
    purged ← purge_tombstones
    idle ← run_once deps
    snapshots ← snapshot_due deps
    references ← deps.service.list_fleet_references
    reap_all references (
        tick_result provisioning drift storage_drift recovered deletions stopping purged idle
          snapshots)
