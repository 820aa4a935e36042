-- ===== src/Reconciler/Order.antt =====
-- services/reconciler/src/index.ts: the order of the calls of a maintenance tick.
use ecs_dev_desktop.Common.{
  ℕ, ◌≡◌, refl, String, true, Option, none, some, List, [], ◌∷◌, ◌++◌, arith,
}
use ecs_dev_desktop.Maintenance.{WorkspaceTaskRef, WorkspaceAgentSecretRef}
use ecs_dev_desktop.Scale.{ControlPlaneScaleDecision, scale_to_zero, hold, wake}
use ecs_dev_desktop.Reconciler.Action.{Async}
use ecs_dev_desktop.Reconciler.Ports.{
  ReconcilerDeps, FleetReferences, ReferencedStorage, SnapshotReference, ComputeProvider,
  ControlPlaneScaleConfig,
}
use ecs_dev_desktop.Reconciler.Sweeps.{
  detect_drift, detect_storage_drift, recover_provisioning, finish_deletions, finish_stopping,
  recover_errors, run_once, snapshot_due, drift_of,
}
use ecs_dev_desktop.Reconciler.Reapers.{
  collect_garbage, reap_orphan_tasks, reap_tasks_of, reap_secrets_of, prune_with, shutdown_with,
  enact, reap_orphan_secrets, prune_task_definitions, control_plane_idle_shutdown, collect_from,
  ReapResult, PruneResult, GcResult, ControlPlaneIdleResult, count_prune, idle_result, count_idle,
}
use ecs_dev_desktop.Reconciler.Tick.{
  MaintenanceResult, tick_result, count_purged, purge_tombstones, reconcile_owner_counts, reap_all,
  run_maintenance,
}
use ecs_dev_desktop.Reconciler.Trace.{
  Call, traced, traced_compute, traced_control_plane, traced_config,
}
use ecs_dev_desktop.Reconciler.Once.{IsTick, Ticks, sweep-Ticks, read-Ticks}
use ecs_dev_desktop.Reconciler.Stages.{
  stage, Stages, pure-Stages, listing-Stages, staged-Stages, then-Stages, reading-Stages, next,
  attempted-Stages, for_each-Stages,
}

module _ {W : Type 0} (deps : ReconcilerDeps W) where
  drift-Stages : Stages 2 2 (detect_drift (traced deps))
  unfolding detect_drift stage
  drift-Stages =
      then-Stages 2 (listing-Stages 2 _ _ refl)
        (λ active. for_each-Stages 2 _ _ _ _ (λ ws. staged-Stages 2 _ _ refl))

  references-Stages : (refs : List SnapshotReference) → Stages 3 3 (drift_of (traced deps) refs)
  unfolding stage
  references-Stages [] = pure-Stages 3 3 _ (omega arith)
  references-Stages (ref ∷ refs) =
      then-Stages 3 (listing-Stages 3 _ _ refl)
        (λ existing. for_each-Stages 3 _ _ _ _ (λ r. staged-Stages 3 _ _ refl))

  storage_drift-Stages : Stages 3 3 (detect_storage_drift (traced deps))
  unfolding detect_storage_drift stage
  storage_drift-Stages = then-Stages 3 (listing-Stages 3 _ _ refl) references-Stages

  provisioning-Stages : Stages 1 1 (recover_provisioning (traced deps))
  unfolding recover_provisioning stage
  provisioning-Stages =
      then-Stages 1 (listing-Stages 1 _ _ refl)
        (λ xs. reading-Stages 1 1 (λ s. for_each-Stages 1 _ _ _ _ (λ id. staged-Stages 1 _ _ refl)))

  errors-Stages : Stages 4 4 (recover_errors (traced deps))
  unfolding recover_errors stage
  errors-Stages =
      then-Stages 4 (listing-Stages 4 _ _ refl)
        (λ xs. for_each-Stages 4 _ _ _ _ (λ id. staged-Stages 4 _ _ refl))

  deletions-Stages : Stages 5 5 (finish_deletions (traced deps))
  unfolding finish_deletions stage
  deletions-Stages =
      then-Stages 5 (listing-Stages 5 _ _ refl)
        (λ xs. for_each-Stages 5 _ _ _ _ (λ id. staged-Stages 5 _ _ refl))

  stopping-Stages : Stages 6 6 (finish_stopping (traced deps))
  unfolding finish_stopping stage
  stopping-Stages =
      then-Stages 6 (listing-Stages 6 _ _ refl)
        (λ xs. for_each-Stages 6 _ _ _ _ (λ id. staged-Stages 6 _ _ refl))

  purge-Stages : Stages 7 7 (purge_tombstones (traced deps))
  unfolding purge_tombstones stage
  purge-Stages =
      then-Stages 7 (attempted-Stages 7 7 (staged-Stages 7 _ _ refl))
        (λ o. pure-Stages 7 7 (count_purged o) (omega arith))

  idle-Stages : Stages 8 8 (run_once (traced deps))
  unfolding run_once stage
  idle-Stages =
      then-Stages 8 (listing-Stages 8 _ _ refl)
        (λ xs. reading-Stages 8 8 (λ s. for_each-Stages 8 _ _ _ _ (λ id. staged-Stages 8 _ _ refl)))

  snapshots-Stages : Stages 9 9 (snapshot_due (traced deps))
  unfolding snapshot_due stage
  snapshots-Stages =
      then-Stages 9 (listing-Stages 9 _ _ refl)
        (λ xs. reading-Stages 9 9 (λ s. for_each-Stages 9 _ _ _ _ (λ id. staged-Stages 9 _ _ refl)))

  tasks-Stages :
      (references : FleetReferences) (c : Option (ComputeProvider W))
      → Stages 11 11 (reap_tasks_of (traced deps) (some references) (traced_compute c))
  unfolding stage
  tasks-Stages references none = pure-Stages 11 11 _ (omega arith)
  tasks-Stages references (some c) = by_list c.list_workspace_tasks refl
    where
      by_list :
          (o : Option (Async W (List WorkspaceTaskRef)))
          → c.list_workspace_tasks ≡ o
          → Stages 11 11 (reap_tasks_of (traced deps) (some references) (traced_compute (some c)))
      by_list none e = rw e (pure-Stages 11 11 _ (omega arith))
      by_list (some m) e = rw e (
          then-Stages 11 (pure-Stages 11 11 _ (omega arith)) (λ refs.
            then-Stages 11 (listing-Stages 11 _ _ refl) (λ xs.
              reading-Stages 11 11
                (λ s. for_each-Stages 11 _ _ _ _ (λ t. staged-Stages 11 _ _ refl)))))

  secrets-Stages :
      (references : FleetReferences) (c : Option (ComputeProvider W))
      → Stages 12 12 (reap_secrets_of (traced deps) (some references) (traced_compute c))
  unfolding stage
  secrets-Stages references none = pure-Stages 12 12 _ (omega arith)
  secrets-Stages references (some c) =
      by_ports c.list_workspace_agent_secrets c.delete_agent_secret refl refl
    where
      by_ports :
          (o : Option (Async W (List WorkspaceAgentSecretRef))) (d : Option (String → Async W Unit))
          → c.list_workspace_agent_secrets ≡ o
          → c.delete_agent_secret ≡ d
          → Stages 12 12 (reap_secrets_of (traced deps) (some references) (traced_compute (some c)))
      by_ports none d e g = rw e (pure-Stages 12 12 _ (omega arith))
      by_ports (some m) none e g = rw (e, g) (pure-Stages 12 12 _ (omega arith))
      by_ports (some m) (some d) e g =
          rw (e, g)
            (then-Stages 12 (listing-Stages 12 _ _ refl) (λ xs.
              then-Stages 12 (pure-Stages 12 12 references.secret_workspace_ids (omega arith))
                (λ live.
                  reading-Stages 12 12
                    (λ s. for_each-Stages 12 _ _ _ _ (λ t. staged-Stages 12 _ _ refl)))))

  prune-Stages :
      (c : Option (ComputeProvider W)) → Stages 13 13 (prune_with (traced deps) (traced_compute c))
  unfolding stage
  prune-Stages none = pure-Stages 13 13 _ (omega arith)
  prune-Stages (some c) = by_port c.prune_task_definitions refl
    where
      by_port :
          (o : Option (ℕ → Async W ℕ))
          → c.prune_task_definitions ≡ o
          → Stages 13 13 (prune_with (traced deps) (traced_compute (some c)))
      by_port none e = rw e (pure-Stages 13 13 _ (omega arith))
      by_port (some m) e = rw e (
          then-Stages 13 (attempted-Stages 13 13 (staged-Stages 13 _ _ refl))
            (λ o. pure-Stages 13 13 (count_prune o) (omega arith)))

  collect-Stages :
      (referenced : ReferencedStorage) (now : ℕ)
      → Stages 14 14 (collect_from (traced deps) referenced now)
  unfolding collect_from stage
  collect-Stages referenced now = then-Stages 14 (listing-Stages 14 _ _ refl) (λ volumes.
      then-Stages 14 (listing-Stages 14 _ _ refl) (λ snapshots.
        then-Stages 14 (for_each-Stages 14 _ _ _ _ (λ v. staged-Stages 14 _ _ refl))
          (λ r. for_each-Stages 14 _ _ _ _ (λ v. staged-Stages 14 _ _ refl))))

  garbage-Stages :
      (references : FleetReferences)
      → Stages 14 14 (collect_garbage (traced deps) (some references))
  unfolding collect_garbage stage
  garbage-Stages references =
      then-Stages 14 (pure-Stages 14 14 references.storage (omega arith)) (λ referenced.
        reading-Stages {f = λ s. collect_from (traced deps) referenced ((traced deps).clock s)} 14
          14 (λ s. collect-Stages referenced (deps.clock s.1)))

  enact-Stages :
      (cp : ControlPlaneScaleConfig W) (desired : ℕ) (d : ControlPlaneScaleDecision)
      → Stages 16 16 (enact (traced deps) (traced_config cp) desired d)
  unfolding stage
  enact-Stages cp desired (hold r) = pure-Stages 16 16 _ (omega arith)
  enact-Stages cp desired (wake n r) = pure-Stages 16 16 _ (omega arith)
  enact-Stages cp desired (scale_to_zero r) =
      then-Stages 16 (staged-Stages 16 _ _ refl)
        (λ u. pure-Stages 16 16 (idle_result desired true r) (omega arith))

  shutdown-Stages :
      (cp : Option (ControlPlaneScaleConfig W))
      → Stages 16 16 (shutdown_with (traced deps) (traced_control_plane cp))
  unfolding stage
  shutdown-Stages none = pure-Stages 16 16 _ (omega arith)
  shutdown-Stages (some cp) =
      then-Stages 16
        (attempted-Stages 16 16 (
          then-Stages 16 (listing-Stages 16 _ _ refl) (λ desired.
            then-Stages 16 (listing-Stages 16 _ _ refl)
              (λ at. reading-Stages 16 16 (λ s. enact-Stages cp desired _)))))
        (λ o. pure-Stages 16 16 (count_idle o) (omega arith))

  reap-Stages :
      (references : FleetReferences)
      (result : ReapResult
        → ReapResult
        → PruneResult
        → GcResult
        → ℕ
        → ControlPlaneIdleResult
        → MaintenanceResult)
      → Stages 11 16 (reap_all (traced deps) references result)
  unfolding reap_all reap_orphan_tasks reap_orphan_secrets prune_task_definitions
      control_plane_idle_shutdown reconcile_owner_counts stage
  reap-Stages references result =
      next 11 12 16 (omega arith) (omega arith) (tasks-Stages references deps.compute) (λ a.
        next 12 13 16 (omega arith) (omega arith) (secrets-Stages references deps.compute) (λ b.
          next 13 14 16 (omega arith) (omega arith) (prune-Stages deps.compute) (λ c.
            next 14 15 16 (omega arith) (omega arith) (garbage-Stages references) (λ d.
              next 15 16 16 (omega arith) (omega arith) (staged-Stages 15 _ _ refl) (λ e.
                then-Stages 16 (shutdown-Stages deps.control_plane)
                  (λ f. pure-Stages 16 16 (result a b c d e f) (omega arith)))))))

  maintenance-Ticks : Ticks 1 (run_maintenance (traced deps))
  unfolding run_maintenance
  maintenance-Ticks = sweep-Ticks 1 2 (omega arith) (omega arith) provisioning-Stages (λ a.
      sweep-Ticks 2 3 (omega arith) (omega arith) drift-Stages (λ b.
        sweep-Ticks 3 4 (omega arith) (omega arith) storage_drift-Stages (λ c.
          sweep-Ticks 4 5 (omega arith) (omega arith) errors-Stages (λ d.
            sweep-Ticks 5 6 (omega arith) (omega arith) deletions-Stages (λ e.
              sweep-Ticks 6 7 (omega arith) (omega arith) stopping-Stages (λ f.
                sweep-Ticks 7 8 (omega arith) (omega arith) purge-Stages (λ g.
                  sweep-Ticks 8 9 (omega arith) (omega arith) idle-Stages (λ h.
                    sweep-Ticks 9 9 (omega arith) (omega arith) snapshots-Stages (λ i.
                      read-Ticks deps.service.list_fleet_references 9 (omega arith) (λ references.
                        reap-Stages references (tick_result a b c d e f g h i)))))))))))

  -- A tick makes its calls stage by stage and never goes back: wakes that crashed are reverted before lost
  -- tasks are noticed, these before lost snapshots, then errors, deletions, stops, tombstones, idle stops
  -- and scheduled snapshots. Then it ends, or it reads the references of the fleet, once and as a whole;
  -- only after that, and without another read of them or of a part of them, tasks, secrets, definitions
  -- and storage are reaped, in this order, and quotas and the control plane looked after. This holds
  -- whatever the calls answer, and also when the tick is cut short by an exception.
  pub maintenance_in_order :
      (log : List Call) (w : W)
      → (seg : List Call) × ((run_maintenance (traced deps) (log, w)).1.0 ≡ log ++ seg)
        × IsTick 1 seg
  maintenance_in_order log w = maintenance-Ticks.adds log w
