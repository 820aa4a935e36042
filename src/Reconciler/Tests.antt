-- ===== src/Reconciler/Tests.antt =====
-- The reconciler on a small fleet, in which the second deletion throws.
use ecs_dev_desktop.Common.{
  ℕ, ◌+◌, ◌≡◌, refl, true, false, none, some, List, [], ◌∷◌, ◌++◌, ◌==◌, string_eq, All,
  if◌then◌else◌, map,
}
use ecs_dev_desktop.Result.{Result, ok}
use ecs_dev_desktop.Errors.{DomainError}
use ecs_dev_desktop.States.{WorkspaceId}
use ecs_dev_desktop.Reconciler.{ActiveWorkspace, select_idle}
use ecs_dev_desktop.Reconciler.Action.{returned, thrown, Async, for_each}
use ecs_dev_desktop.Reconciler.Ports.{ReconcilerDeps, FleetReferences}
use ecs_dev_desktop.Reconciler.Sweeps.{SweepResult, finish_deletions, run_once}
use ecs_dev_desktop.Reconciler.Tick.{run_maintenance, reap_all, tick_result}
use ecs_dev_desktop.Reconciler.Trace.{
  noting, Call, traced, active_listed, deleting_listed, stopped, deleting_finished,
}
use ecs_dev_desktop.Reconciler.Once.{IsTick}
use ecs_dev_desktop.Reconciler.Order.{maintenance_in_order}
use ecs_dev_desktop.Reconciler.Accounts.{IsAccounted, maintenance-IsAccounted}
use ecs_dev_desktop.Reconciler.Counts.{Holds}
use ecs_dev_desktop.Reconciler.Calls.{IsSelection, deletions_attempt_each, idle_sweep_stops_exactly}
use ecs_dev_desktop.Reconciler.Spares.{IsSparing, reap_all_spares}

-- The world is the number of calls made; a call answers what it is given.
abbrev answer : {A : Type 0} → A → Async ℕ A
answer a w = (returned a, w + 1)

abbrev done : Async ℕ (Result Unit DomainError)
done = answer (ok tt)

abbrev references : FleetReferences
references = record {
  storage = record { volume_ids = "vol-1" ∷ []; snapshot_ids = "snap-1" ∷ [] };
  task_ids = "task-1" ∷ [];
  secret_workspace_ids = "w1" ∷ [];
}

abbrev workspaces : List ActiveWorkspace
workspaces =
    record { id = "w1"; last_activity = 1000; idle_stop_ms = none; always_on = none }
    ∷ record { id = "w2"; last_activity = 2000; idle_stop_ms = none; always_on = some true }
    ∷ record { id = "w3"; last_activity = 9_999_000; idle_stop_ms = none; always_on = none }
    ∷ []

abbrev fleet : ReconcilerDeps ℕ
fleet = record {
  service = record {
    list_active = answer workspaces;
    reconcile_task_loss = λ id. answer (ok false);
    stop = λ id ms. done;
    list_snapshot_candidates = answer [];
    snapshot = λ id. done;
    list_referenced_storage = answer references.storage;
    list_fleet_references = answer references;
    list_referenced_tasks = answer references.task_ids;
    list_runtime_secret_workspace_ids = answer references.secret_workspace_ids;
    list_stuck_provisioning = answer [];
    recover_stuck_provisioning = λ id. done;
    list_deleting = answer ("w4" ∷ "w5" ∷ "w6" ∷ []);
    finish_deleting = λ id. if id == "w5" then (λ w. (thrown "throttled", w + 1)) else done;
    list_stopping = answer [];
    finish_stop = λ id b. done;
    list_recoverable_errors = answer ("w7" ∷ []);
    recover_error = λ id. done;
    list_snapshot_references = answer [];
    mark_snapshot_lost_for = λ id. done;
    reconcile_owner_counts = answer 0;
    purge_expired_tombstones = λ ms. answer 0;
  };
  storage = record {
    list_volumes =
        answer
          (record { id = "vol-1"; created_at = 0 } ∷ record { id = "vol-2"; created_at = 0 } ∷ []);
    list_snapshots = answer [];
    delete_volume = λ id. answer tt;
    delete_snapshot = λ id. answer tt;
  };
  compute = some (record {
    stop_task = λ id. answer tt;
    list_workspace_tasks = some (
        answer (
          record { id = "task-1"; workspace_id = "w1"; started_at = 0 }
          ∷ record { id = "task-2"; workspace_id = "w9"; started_at = 0 }
          ∷ []));
    list_workspace_agent_secrets = none;
    delete_agent_secret = none;
    prune_task_definitions = none;
  });
  control_plane = none;
  clock = λ w. 10_000_000;
  idle_threshold_ms = none;
  snapshot_interval_ms = none;
  early_snapshot_interval_ms = none;
  early_session_ms = none;
  task_def_keep = none;
  converge_budget = none;
  gc_grace_ms = none;
  undelete_retention_ms = none;
  provisioning_timeout_ms = none;
}

maintenance_in_order_example :
    (seg : List Call) × ((run_maintenance (traced fleet) ([], 0)).1.0 ≡ [] ++ seg) × IsTick 1 seg
maintenance_in_order_example = maintenance_in_order fleet [] 0

maintenance-IsAccounted_example : Holds (IsAccounted fleet) (run_maintenance fleet 0).0
maintenance-IsAccounted_example = maintenance-IsAccounted fleet 0

deletions_attempt_each_example :
    (finish_deletions (traced fleet) ([], 0)).1.0
    ≡ deleting_listed
      ∷ deleting_finished "w4"
      ∷ deleting_finished "w5"
      ∷ deleting_finished "w6"
      ∷ []
deletions_attempt_each_example = deletions_attempt_each fleet [] 0 1 ("w4" ∷ "w5" ∷ "w6" ∷ []) refl

idle_sweep_stops_exactly_example :
    (each : List WorkspaceId) × IsSelection 10_000_000 300_000 workspaces each
    × ((run_once (traced fleet) ([], 0)).1.0
        ≡ active_listed ∷ map (λ id. stopped id (some 300_000)) each)
idle_sweep_stops_exactly_example = idle_sweep_stops_exactly fleet [] 0 1 workspaces refl

idle_sweep_runs :
    (run_once (traced fleet) ([], 0)).1.0 ≡ active_listed ∷ stopped "w1" (some 300_000) ∷ []
unfolding select_idle run_once noting for_each
idle_sweep_runs = refl

abbrev nothing : SweepResult
nothing = record { scanned = 0; acted = 0; skipped = 0; failed = 0 }

reap_all_spares_example :
    (seg : List Call) × ((reap_all
        (traced fleet)
        references
        (tick_result nothing nothing nothing nothing nothing nothing 0 nothing nothing)
        ([], 0)).1.0
      ≡ [] ++ seg)
    × All (IsSparing references) seg
reap_all_spares_example =
    reap_all_spares fleet references
      (tick_result nothing nothing nothing nothing nothing nothing 0 nothing nothing) [] 0
