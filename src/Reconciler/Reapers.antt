-- ===== src/Reconciler/Reapers.antt =====
-- services/reconciler/src/index.ts: the sweeps over storage, tasks, secrets and the control plane itself.
use ecs_dev_desktop.Common.{
  ℕ, ◌+◌, ◌*◌, String, Bool, true, false, Option, none, some, List, length, or_else,
}
use ecs_dev_desktop.Maintenance.{
  VolumeRef, SnapshotRef, WorkspaceTaskRef, WorkspaceAgentSecretRef, select_orphan_volumes,
  select_orphan_snapshots, select_orphan_tasks, select_orphan_secrets,
}
use ecs_dev_desktop.Scale.{
  ControlPlaneScaleDecision, scale_to_zero, hold, wake, Reason, decide_control_plane_idle,
}
use ecs_dev_desktop.Reconciler.Action.{
  Outcome, returned, thrown, Async, pure, attempted, for_each, ◌>>=◌,
}
use ecs_dev_desktop.Reconciler.Ports.{
  ReconcilerDeps, Reconciler, ReferencedStorage, FleetReferences, ComputeProvider,
  ControlPlaneScaleConfig, new_reconciler,
}

pub record GcResult : Type 0 where
  pub volumes_deleted : ℕ
  pub snapshots_deleted : ℕ
  pub volumes_failed : ℕ
  pub snapshots_failed : ℕ

pub record ReapResult : Type 0 where
  pub scanned : ℕ
  pub reaped : ℕ
  pub failed : ℕ

pub record PruneResult : Type 0 where
  pub deregistered : ℕ
  pub failed : ℕ

pub data IdleReason : Type 0 where
  unconfigured : IdleReason
  decided : Reason → IdleReason
  sweep_error : IdleReason

pub record ControlPlaneIdleResult : Type 0 where
  pub configured : Bool
  pub desired_count : ℕ
  pub scaled_to_zero : Bool
  pub reason : IdleReason
  pub failed : ℕ

abbrev pub count_volume : Outcome Unit → GcResult → GcResult
count_volume (returned _) r = record r { volumes_deleted = r.volumes_deleted + 1 }
count_volume (thrown _) r = record r { volumes_failed = r.volumes_failed + 1 }

abbrev pub count_snapshot : Outcome Unit → GcResult → GcResult
count_snapshot (returned _) r = record r { snapshots_deleted = r.snapshots_deleted + 1 }
count_snapshot (thrown _) r = record r { snapshots_failed = r.snapshots_failed + 1 }

abbrev pub count_reap : Outcome Unit → ReapResult → ReapResult
count_reap (returned _) r = record r { reaped = r.reaped + 1 }
count_reap (thrown _) r = record r { failed = r.failed + 1 }

abbrev pub nothing_reaped : ℕ → ReapResult
nothing_reaped n = record { scanned = n; reaped = 0; failed = 0 }

abbrev pub nothing_deleted : GcResult
nothing_deleted = record {
  volumes_deleted = 0;
  snapshots_deleted = 0;
  volumes_failed = 0;
  snapshots_failed = 0;
}

abbrev pub count_prune : Outcome ℕ → PruneResult
count_prune (returned n) = record { deregistered = n; failed = 0 }
count_prune (thrown _) = record { deregistered = 0; failed = 1 }

abbrev pub idle_result : ℕ → Bool → Reason → ControlPlaneIdleResult
idle_result desired scaled reason = record {
  configured = true;
  desired_count = desired;
  scaled_to_zero = scaled;
  reason = decided reason;
  failed = 0;
}

abbrev pub count_idle : Outcome ControlPlaneIdleResult → ControlPlaneIdleResult
count_idle (returned r) = r
count_idle (thrown _) = record {
  configured = true;
  desired_count = 0;
  scaled_to_zero = false;
  reason = sweep_error;
  failed = 1;
}

module _ {W : Type 0} (deps : ReconcilerDeps W) where
  abbrev this : Reconciler
  this = new_reconciler deps

  -- `references ?? (await m)` of a part of the references
  abbrev pub given_or :
      {A : Type 0} → Option FleetReferences → (FleetReferences → A) → Async W A → Async W A
  given_or none part m = m
  given_or (some references) part m = pure (part references)

  abbrev pub delete_orphans :
      ReferencedStorage → List VolumeRef → List SnapshotRef → ℕ → Async W GcResult
  delete_orphans referenced volumes snapshots now =
      for_each deps.storage.delete_volume count_volume
        (select_orphan_volumes volumes referenced.volume_ids now this.gc_grace_ms) nothing_deleted
      >>= for_each deps.storage.delete_snapshot count_snapshot
          (select_orphan_snapshots snapshots referenced.snapshot_ids now this.gc_grace_ms)

  -- The two lists are awaited together; here one after the other.
  unfoldable pub collect_from : ReferencedStorage → ℕ → Async W GcResult
  unfolding ◌>>=◌
  collect_from referenced now = deps.storage.list_volumes >>= λ volumes.
      deps.storage.list_snapshots >>= λ snapshots. delete_orphans referenced volumes snapshots now

  unfoldable pub collect_garbage : Option FleetReferences → Async W GcResult
  unfolding ◌>>=◌
  collect_garbage references =
      given_or references (λ r. r.storage) deps.service.list_referenced_storage >>= λ referenced w.
      collect_from referenced (deps.clock w) w

  abbrev pub reap_tasks :
      Option FleetReferences
      → ComputeProvider W
      → Async W (List WorkspaceTaskRef)
      → Async W ReapResult
  reap_tasks references compute list_tasks =
      given_or references (λ r. r.task_ids) deps.service.list_referenced_tasks >>= λ referenced.
      list_tasks >>= λ existing w.
      for_each (λ (task : WorkspaceTaskRef). compute.stop_task task.id) count_reap
        (select_orphan_tasks existing referenced (deps.clock w) this.gc_grace_ms)
        (nothing_reaped (length existing)) w

  abbrev pub reap_tasks_of :
      Option FleetReferences → Option (ComputeProvider W) → Async W ReapResult
  reap_tasks_of references none = pure (nothing_reaped 0)
  reap_tasks_of references (some compute) = elim compute.list_workspace_tasks [
    | none ↦ pure (nothing_reaped 0)
    | some list_tasks ↦ reap_tasks references compute list_tasks
  ]

  unfoldable pub reap_orphan_tasks : Option FleetReferences → Async W ReapResult
  unfolding ◌>>=◌
  reap_orphan_tasks references = reap_tasks_of references deps.compute

  abbrev pub reap_secrets :
      Option FleetReferences
      → Async W (List WorkspaceAgentSecretRef)
      → (String → Async W Unit)
      → Async W ReapResult
  reap_secrets references list_secrets delete_secret = list_secrets >>= λ existing.
      given_or references (λ r. r.secret_workspace_ids)
        deps.service.list_runtime_secret_workspace_ids
      >>= λ live w.
          for_each (λ (secret : WorkspaceAgentSecretRef). delete_secret secret.name) count_reap
            (select_orphan_secrets existing live (deps.clock w) this.gc_grace_ms)
            (nothing_reaped (length existing)) w

  abbrev pub reap_secrets_of :
      Option FleetReferences → Option (ComputeProvider W) → Async W ReapResult
  reap_secrets_of references none = pure (nothing_reaped 0)
  reap_secrets_of references (some compute) = elim compute.list_workspace_agent_secrets [
    | none ↦ pure (nothing_reaped 0)
    | some list_secrets ↦ elim compute.delete_agent_secret [
      | none ↦ pure (nothing_reaped 0)
      | some delete_secret ↦ reap_secrets references list_secrets delete_secret
    ]
  ]

  unfoldable pub reap_orphan_secrets : Option FleetReferences → Async W ReapResult
  unfolding ◌>>=◌
  reap_orphan_secrets references = reap_secrets_of references deps.compute

  abbrev pub prune_with : Option (ComputeProvider W) → Async W PruneResult
  prune_with none = pure (record { deregistered = 0; failed = 0 })
  prune_with (some compute) = elim compute.prune_task_definitions [
    | none ↦ pure (record { deregistered = 0; failed = 0 })
    | some prune ↦ attempted (prune this.task_def_keep) >>= λ o. pure (count_prune o)
  ]

  unfoldable pub prune_task_definitions : Async W PruneResult
  unfolding ◌>>=◌
  prune_task_definitions = prune_with deps.compute

  abbrev pub enact :
      ControlPlaneScaleConfig W → ℕ → ControlPlaneScaleDecision → Async W ControlPlaneIdleResult
  enact cp desired (scale_to_zero reason) =
      cp.scale_service cp.service_name 0 >>= λ _. pure (idle_result desired true reason)
  enact cp desired (hold reason) = pure (idle_result desired false reason)
  enact cp desired (wake n reason) = pure (idle_result desired false reason)

  abbrev pub shutdown_step : ControlPlaneScaleConfig W → Async W ControlPlaneIdleResult
  shutdown_step cp = cp.describe_service cp.service_name >>= λ desired.
      cp.read_last_activity >>= λ last_activity_at w.
      enact cp desired
        (decide_control_plane_idle (record {
          current_desired = desired;
          last_activity_at = last_activity_at;
          now = some (deps.clock w);
          idle_threshold_ms = or_else cp.idle_threshold_ms (15 * 60 * 1_000);
        }))
        w

  abbrev pub shutdown_with : Option (ControlPlaneScaleConfig W) → Async W ControlPlaneIdleResult
  shutdown_with none = pure (record {
    configured = false;
    desired_count = 0;
    scaled_to_zero = false;
    reason = unconfigured;
    failed = 0;
  })
  shutdown_with (some cp) = attempted (shutdown_step cp) >>= λ o. pure (count_idle o)

  unfoldable pub control_plane_idle_shutdown : Async W ControlPlaneIdleResult
  unfolding ◌>>=◌
  control_plane_idle_shutdown = shutdown_with deps.control_plane
