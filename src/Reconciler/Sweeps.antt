-- ===== src/Reconciler/Sweeps.antt =====
-- services/reconciler/src/index.ts: the sweeps over the records of workspaces.
use ecs_dev_desktop.Common.{
  ℕ, zero, suc, ◌+◌, Bool, true, false, not, some, List, [], ◌∷◌, map, length, filter, includes,
  string_eq,
}
use ecs_dev_desktop.Result.{Result, ok, err}
use ecs_dev_desktop.Errors.{DomainError}
use ecs_dev_desktop.Maintenance.{SnapshotRef, select_due_for_snapshot}
use ecs_dev_desktop.Reconciler.{ActiveWorkspace, select_idle}
use ecs_dev_desktop.Reconciler.Action.{Outcome, returned, thrown, Async, pure, for_each, ◌>>=◌}
use ecs_dev_desktop.Reconciler.Ports.{ReconcilerDeps, Reconciler, SnapshotReference, new_reconciler}

-- `acted` is `lost`, `recovered`, `stopped` or `snapshotted` in the results of the source.
pub record SweepResult : Type 0 where
  pub scanned : ℕ
  pub acted : ℕ
  pub skipped : ℕ
  pub failed : ℕ

abbrev pub scanned_only : ℕ → SweepResult
scanned_only n = record { scanned = n; acted = 0; skipped = 0; failed = 0 }

abbrev pub count_result : Outcome (Result Unit DomainError) → SweepResult → SweepResult
count_result (returned (ok _)) r = record r { acted = r.acted + 1 }
count_result (returned (err _)) r = record r { skipped = r.skipped + 1 }
count_result (thrown _) r = record r { failed = r.failed + 1 }

abbrev pub count_loss : Outcome (Result Bool DomainError) → SweepResult → SweepResult
count_loss (returned (ok true)) r = record r { acted = r.acted + 1 }
count_loss (returned (ok false)) r = r
count_loss (returned (err _)) r = record r { skipped = r.skipped + 1 }
count_loss (thrown _) r = record r { failed = r.failed + 1 }

-- `xs.slice(0, n)`
abbrev pub slice : {A : Type 0} → ℕ → List A → List A
slice zero xs = []
slice (suc n) [] = []
slice (suc n) (x ∷ xs) = x ∷ slice n xs

-- `if (existing.has(ref.snapshotId)) continue`
abbrev pub is_missing : List SnapshotRef → SnapshotReference → Bool
is_missing existing ref = not (includes (map (λ s. s.id) existing) ref.snapshot_id)

module _ {W : Type 0} (deps : ReconcilerDeps W) where
  abbrev this : Reconciler
  this = new_reconciler deps

  unfoldable pub detect_drift : Async W SweepResult
  unfolding ◌>>=◌
  detect_drift = deps.service.list_active >>= λ active.
      for_each (λ (ws : ActiveWorkspace). deps.service.reconcile_task_loss ws.id) count_loss active
        (scanned_only (length active))

  -- The rest of the sweep, once there is a reference.
  abbrev pub check_references : List SnapshotReference → Async W SweepResult
  check_references refs = deps.storage.list_snapshots >>= λ existing.
      for_each (λ (ref : SnapshotReference). deps.service.mark_snapshot_lost_for ref.id)
        count_result (filter (is_missing existing) refs) (scanned_only (length refs))

  abbrev pub drift_of : List SnapshotReference → Async W SweepResult
  drift_of [] = pure (scanned_only 0)
  drift_of (ref ∷ refs) = check_references (ref ∷ refs)

  unfoldable pub detect_storage_drift : Async W SweepResult
  unfolding ◌>>=◌
  detect_storage_drift = deps.service.list_snapshot_references >>= drift_of

  unfoldable pub recover_provisioning : Async W SweepResult
  unfolding ◌>>=◌
  recover_provisioning = deps.service.list_stuck_provisioning >>= λ candidates w.
      for_each deps.service.recover_stuck_provisioning count_result
        (select_idle candidates (deps.clock w) this.provisioning_timeout_ms)
        (scanned_only (length candidates)) w

  unfoldable pub finish_deletions : Async W SweepResult
  unfolding ◌>>=◌
  finish_deletions = deps.service.list_deleting >>= λ deleting.
      for_each deps.service.finish_deleting count_result (slice this.converge_budget deleting)
        (scanned_only (length deleting))

  unfoldable pub finish_stopping : Async W SweepResult
  unfolding ◌>>=◌
  finish_stopping = deps.service.list_stopping >>= λ stopping.
      for_each (λ id. deps.service.finish_stop id true) count_result
        (slice this.converge_budget stopping) (scanned_only (length stopping))

  unfoldable pub recover_errors : Async W SweepResult
  unfolding ◌>>=◌
  recover_errors = deps.service.list_recoverable_errors >>= λ recoverable.
      for_each deps.service.recover_error count_result (slice this.converge_budget recoverable)
        (scanned_only (length recoverable))

  unfoldable pub run_once : Async W SweepResult
  unfolding ◌>>=◌
  run_once = deps.service.list_active >>= λ active w.
      for_each (λ id. deps.service.stop id (some this.idle_threshold_ms)) count_result
        (select_idle active (deps.clock w) this.idle_threshold_ms) (scanned_only (length active)) w

  unfoldable pub snapshot_due : Async W SweepResult
  unfolding ◌>>=◌
  snapshot_due = deps.service.list_snapshot_candidates >>= λ candidates w.
      for_each deps.service.snapshot count_result
        (select_due_for_snapshot candidates (deps.clock w) this.snapshot_interval_ms (
          some (record {
            interval_ms = this.early_snapshot_interval_ms;
            session_ms = this.early_session_ms;
          })))
        (scanned_only (length candidates)) w
