-- ===== src/Reconciler/Spares.antt =====
-- services/reconciler/src/index.ts: what the reapers of a tick leave alone.
use ecs_dev_desktop.Common.{
  ℕ, ◌≡◌, refl, sym, String, Bool, true, false, not, ◌&&◌, Option, none, some, List, [], ◌∷◌, ◌++◌,
  includes, string_eq, All, All-map, All-filter_test,
}
use ecs_dev_desktop.Maintenance.{
  VolumeRef, SnapshotRef, WorkspaceTaskRef, WorkspaceAgentSecretRef, select_orphan_volumes,
  volume_is_orphan, snapshot_is_orphan, task_is_orphan, is_retained, select_orphan_snapshots,
  select_orphan_tasks,
}
use ecs_dev_desktop.Maintenance.Sweep.{All-selected}
use ecs_dev_desktop.Scale.{ControlPlaneScaleDecision, scale_to_zero, hold, wake}
use ecs_dev_desktop.Reconciler.Action.{Async}
use ecs_dev_desktop.Reconciler.Ports.{
  ReconcilerDeps, FleetReferences, ComputeProvider, ControlPlaneScaleConfig, new_reconciler,
}
use ecs_dev_desktop.Reconciler.Reapers.{
  ReapResult, PruneResult, GcResult, ControlPlaneIdleResult, collect_garbage, collect_from,
  reap_orphan_tasks, reap_tasks_of, reap_secrets_of, prune_with, shutdown_with, enact,
  reap_orphan_secrets, prune_task_definitions, control_plane_idle_shutdown, count_prune,
  idle_result, count_idle,
}
use ecs_dev_desktop.Reconciler.Tick.{MaintenanceResult, reconcile_owner_counts, reap_all}
use ecs_dev_desktop.Reconciler.Trace.{
  Call, Logged, noting, traced, traced_compute, traced_control_plane, traced_config, volume_deleted,
  snapshot_deleted, task_stopped,
}
use ecs_dev_desktop.Reconciler.Emits.{
  Emits, pure-Emits, noting-Emits, attempted-Emits, reading-Emits, bind-Emits, for_each-Emits,
  given-Emits,
}

-- A call does not delete or stop what the references name.
unfoldable pub IsSparing : FleetReferences → Call → Type 0
IsSparing references (volume_deleted id) = includes references.storage.volume_ids id ≡ false
IsSparing references (snapshot_deleted id) = includes references.storage.snapshot_ids id ≡ false
IsSparing references (task_stopped id) = includes references.task_ids id ≡ false
IsSparing references _ = Unit

not-false : (a b : Bool) → (not a && b) ≡ true → a ≡ false
not-false true b h = sym h
not-false false b h = refl

not-false_second : (r a b : Bool) → (r && (not a && b)) ≡ true → a ≡ false
not-false_second true a b h = not-false a b h
not-false_second false a b h = let f : false ≡ true = h in cc

every : {A : Type 0} (P : A → Type 0) → ((a : A) → P a) → (xs : List A) → All P xs
every P h [] = tt
every P h (x ∷ xs) = (h x, every P h xs)

module _ {W : Type 0} (deps : ReconcilerDeps W) (references : FleetReferences) where
  abbrev Spares : {A : Type 0} → Async (Logged W) A → Type 0
  Spares m = Emits (IsSparing references) m

  volumes-Spare :
      (xs : List VolumeRef) (now ms : ℕ)
      → All
          (λ id. Spares ((traced deps).storage.delete_volume id))
          (select_orphan_volumes xs references.storage.volume_ids now ms)
  unfolding select_orphan_volumes IsSparing
  volumes-Spare xs now ms =
      All-selected (λ (v : VolumeRef). v.id) (volume_is_orphan references.storage.volume_ids now ms)
        (λ id. Spares ((traced deps).storage.delete_volume id)) xs
        (λ v h. noting-Emits _ _ _ (not-false (includes references.storage.volume_ids v.id) _ h))

  snapshots-Spare :
      (xs : List SnapshotRef) (now ms : ℕ)
      → All
          (λ id. Spares ((traced deps).storage.delete_snapshot id))
          (select_orphan_snapshots xs references.storage.snapshot_ids now ms)
  unfolding select_orphan_snapshots IsSparing
  snapshots-Spare xs now ms =
      All-selected (λ (s : SnapshotRef). s.id)
        (snapshot_is_orphan references.storage.snapshot_ids now ms)
        (λ id. Spares ((traced deps).storage.delete_snapshot id)) xs
        (λ s h. noting-Emits _ _ _ (
          not-false_second (not (is_retained s.retained))
            (includes references.storage.snapshot_ids s.id) _ h))

  collect-Spares : (now : ℕ) → Spares (collect_from (traced deps) references.storage now)
  unfolding collect_from IsSparing
  collect-Spares now = bind-Emits _ (noting-Emits _ _ _ tt) (λ volumes.
      bind-Emits _ (noting-Emits _ _ _ tt) (λ snapshots.
        bind-Emits _
          (for_each-Emits _ _ _ _ _ (volumes-Spare volumes now (new_reconciler deps).gc_grace_ms))
          (λ r.
            for_each-Emits _ _ _ _ _
              (snapshots-Spare snapshots now (new_reconciler deps).gc_grace_ms))))

  garbage-Spares : Spares (collect_garbage (traced deps) (some references))
  unfolding collect_garbage
  garbage-Spares =
      given-Emits (IsSparing references) references.storage
        (λ referenced w. collect_from (traced deps) referenced ((traced deps).clock w) w)
        (reading-Emits (IsSparing references)
          {f = λ s. collect_from (traced deps) references.storage ((traced deps).clock s)}
          (λ s. collect-Spares (deps.clock s.1)))

  orphans-Spare :
      (c : ComputeProvider W) (xs : List WorkspaceTaskRef) (now ms : ℕ)
      → All
          (λ (t : WorkspaceTaskRef). Spares (noting (task_stopped t.id) (c.stop_task t.id)))
          (select_orphan_tasks xs references.task_ids now ms)
  unfolding select_orphan_tasks IsSparing
  orphans-Spare c xs now ms =
      All-map (λ t h. noting-Emits _ _ _ (not-false (includes references.task_ids t.id) _ h)) _
        (All-filter_test (task_is_orphan references.task_ids now ms) xs)

  tasks-Spare :
      (c : Option (ComputeProvider W))
      → Spares (reap_tasks_of (traced deps) (some references) (traced_compute c))
  unfolding select_orphan_tasks IsSparing
  tasks-Spare none = pure-Emits _ _
  tasks-Spare (some c) = by_list c.list_workspace_tasks refl
    where
      by_list :
          (o : Option (Async W (List WorkspaceTaskRef)))
          → c.list_workspace_tasks ≡ o
          → Spares (reap_tasks_of (traced deps) (some references) (traced_compute (some c)))
      by_list none e = rw e (pure-Emits _ _)
      by_list (some m) e = rw e (
          given-Emits _ references.task_ids _ (
            bind-Emits _ (noting-Emits _ _ _ tt) (λ xs. reading-Emits _ (λ s.
              for_each-Emits _ _ _ _ _
                (orphans-Spare c xs (deps.clock s.1) (new_reconciler deps).gc_grace_ms)))))

  secrets-Spare :
      (c : Option (ComputeProvider W))
      → Spares (reap_secrets_of (traced deps) (some references) (traced_compute c))
  unfolding IsSparing
  secrets-Spare none = pure-Emits _ _
  secrets-Spare (some c) = by_ports c.list_workspace_agent_secrets c.delete_agent_secret refl refl
    where
      by_ports :
          (o : Option (Async W (List WorkspaceAgentSecretRef))) (d : Option (String → Async W Unit))
          → c.list_workspace_agent_secrets ≡ o
          → c.delete_agent_secret ≡ d
          → Spares (reap_secrets_of (traced deps) (some references) (traced_compute (some c)))
      by_ports none d e g = rw e (pure-Emits _ _)
      by_ports (some m) none e g = rw (e, g) (pure-Emits _ _)
      by_ports (some m) (some d) e g =
          rw (e, g)
            (bind-Emits _ (noting-Emits _ _ _ tt) (λ xs.
              given-Emits _ references.secret_workspace_ids _ (
                reading-Emits _
                  (λ s. for_each-Emits _ _ _ _ _ (every _ (λ t. noting-Emits _ _ _ tt) _)))))

  prune-Spares :
      (c : Option (ComputeProvider W)) → Spares (prune_with (traced deps) (traced_compute c))
  unfolding IsSparing
  prune-Spares none = pure-Emits _ _
  prune-Spares (some c) = by_port c.prune_task_definitions refl
    where
      by_port :
          (o : Option (ℕ → Async W ℕ))
          → c.prune_task_definitions ≡ o
          → Spares (prune_with (traced deps) (traced_compute (some c)))
      by_port none e = rw e (pure-Emits _ _)
      by_port (some m) e = rw e (
          bind-Emits _ (attempted-Emits _ (noting-Emits _ _ _ tt))
            (λ o. pure-Emits _ (count_prune o)))

  enact-Spares :
      (cp : ControlPlaneScaleConfig W) (desired : ℕ) (d : ControlPlaneScaleDecision)
      → Spares (enact (traced deps) (traced_config cp) desired d)
  unfolding IsSparing
  enact-Spares cp desired (hold r) = pure-Emits _ _
  enact-Spares cp desired (wake n r) = pure-Emits _ _
  enact-Spares cp desired (scale_to_zero r) =
      bind-Emits _ (noting-Emits _ _ _ tt) (λ u. pure-Emits _ (idle_result desired true r))

  shutdown-Spares :
      (cp : Option (ControlPlaneScaleConfig W))
      → Spares (shutdown_with (traced deps) (traced_control_plane cp))
  unfolding IsSparing
  shutdown-Spares none = pure-Emits _ _
  shutdown-Spares (some cp) =
      bind-Emits _
        (attempted-Emits _ (
          bind-Emits _ (noting-Emits _ _ _ tt) (λ desired.
            bind-Emits _ (noting-Emits _ _ _ tt)
              (λ at. reading-Emits _ (λ s. enact-Spares cp desired _)))))
        (λ o. pure-Emits _ (count_idle o))

  reap-Spares :
      (result : ReapResult
        → ReapResult
        → PruneResult
        → GcResult
        → ℕ
        → ControlPlaneIdleResult
        → MaintenanceResult)
      → Spares (reap_all (traced deps) references result)
  unfolding reap_all reap_orphan_tasks reap_orphan_secrets prune_task_definitions
      control_plane_idle_shutdown reconcile_owner_counts IsSparing
  reap-Spares result = bind-Emits _ (tasks-Spare deps.compute) (λ a.
      bind-Emits _ (secrets-Spare deps.compute) (λ b. bind-Emits _ (prune-Spares deps.compute) (λ c.
        bind-Emits _ garbage-Spares (λ d. bind-Emits _ (noting-Emits _ _ _ tt) (λ e.
          bind-Emits _ (shutdown-Spares deps.control_plane)
            (λ f. pure-Emits _ (result a b c d e f)))))))

  -- After the references of the fleet are read, the rest of a tick deletes no volume and no snapshot and
  -- stops no task that they name, whatever the storage and the compute backend answer.
  pub reap_all_spares :
      (result : ReapResult
        → ReapResult
        → PruneResult
        → GcResult
        → ℕ
        → ControlPlaneIdleResult
        → MaintenanceResult)
      (log : List Call) (w : W)
      → (seg : List Call) × ((reap_all (traced deps) references result (log, w)).1.0 ≡ log ++ seg)
        × All (IsSparing references) seg
  reap_all_spares result log w = (reap-Spares result).adds log w
