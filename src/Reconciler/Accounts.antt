-- ===== src/Reconciler/Accounts.antt =====
-- services/reconciler/src/index.ts: what the result of a tick accounts for.
use Prim.Native.Nat.{min}
use ecs_dev_desktop.Common.{
  ℕ, zero, suc, ◌+◌, ◌≤◌, ◌≡◌, refl, ap, String, Option, none, some, List, [], ◌∷◌, map, length,
  filter, length-filter-le, arith,
}
use ecs_dev_desktop.Maintenance.{
  WorkspaceTaskRef, WorkspaceAgentSecretRef, SnapshotCandidate, EarlyCadence, select_orphan_tasks,
  select_orphan_secrets, select_due_for_snapshot, is_due, task_is_orphan, secret_is_orphan,
}
use ecs_dev_desktop.Reconciler.{ActiveWorkspace, select_idle, is_idle, may_stop}
use ecs_dev_desktop.Reconciler.Action.{Outcome, returned, thrown, Async, for_each}
use ecs_dev_desktop.Reconciler.Ports.{
  ReconcilerDeps, FleetReferences, SnapshotReference, ComputeProvider, new_reconciler,
}
use ecs_dev_desktop.Reconciler.Sweeps.{
  SweepResult, detect_drift, detect_storage_drift, recover_provisioning, finish_deletions,
  finish_stopping, recover_errors, run_once, snapshot_due, drift_of, count_result, count_loss,
  slice, is_missing, scanned_only,
}
use ecs_dev_desktop.Reconciler.Reapers.{
  ReapResult, reap_orphan_tasks, reap_orphan_secrets, reap_tasks_of, reap_secrets_of, count_reap,
  nothing_reaped, prune_task_definitions, collect_garbage, control_plane_idle_shutdown,
}
use ecs_dev_desktop.Reconciler.Tick.{
  MaintenanceResult, reconcile_owner_counts, run_maintenance, reap_all, tick_result,
}
use ecs_dev_desktop.Reconciler.Counts.{
  attempts, Holds, Gives, bind-Gives, pure-Gives, listed-Gives, reading-Gives, for_each-Gives,
  Counted, CountedAtMost, ReapCounted, result-Counted, loss-Counted, reap-Counted,
}

-- A sweep calls the service at most once for each record that it scanned.
abbrev pub WithinScan : SweepResult → Type 0
WithinScan r = attempts r ≤ r.scanned

-- A sweep calls the service for each record that it scanned, up to its budget.
abbrev pub UsesBudget : ℕ → SweepResult → Type 0
UsesBudget budget r = attempts r ≡ min r.scanned budget

abbrev pub ReapsWithinScan : ReapResult → Type 0
ReapsWithinScan r = r.reaped + r.failed ≤ r.scanned

length-map : {A B : Type 0} (f : A → B) (xs : List A) → length (map f xs) ≡ length xs
length-map f [] = refl
length-map f (x ∷ xs) = ap suc (length-map f xs)

length-slice : {A : Type 0} (n : ℕ) (xs : List A) → length (slice n xs) ≡ min (length xs) n
length-slice zero xs = omega arith
length-slice (suc n) [] = omega arith
length-slice (suc n) (x ∷ xs) = omega (arith, length-slice n xs)

length-select_idle :
    (xs : List ActiveWorkspace) (now ms : ℕ) → length (select_idle xs now ms) ≤ length xs
unfolding select_idle
length-select_idle xs now ms =
    let a =
      length-map (λ (w : ActiveWorkspace). w.id) (filter (is_idle now ms) (filter may_stop xs)) in
    let b = length-filter-le (is_idle now ms) (filter may_stop xs) in
    let c = length-filter-le may_stop xs in omega arith

length-due :
    (xs : List SnapshotCandidate) (now ms : ℕ) (early : Option EarlyCadence)
    → length (select_due_for_snapshot xs now ms early) ≤ length xs
unfolding select_due_for_snapshot
length-due xs now ms early =
    let a = length-map (λ (c : SnapshotCandidate). c.id) (filter (is_due now ms early) xs) in
    let b = length-filter-le (is_due now ms early) xs in omega arith

module _ {W : Type 0} where
  widen-Gives :
      {A : Type 0} {m : Async W A} {P Q : A → Type 0}
      → ((a : A) → P a → Q a)
      → Gives P m
      → Gives Q m
  widen-Gives {A} {m} {P} {Q} f h = record { gives = λ w. through (m w).0 (h.gives w) }
    where
      through : (o : Outcome A) → Holds P o → Holds Q o
      through (returned a) p = f a p
      through (thrown x) p = tt

  sweep-Counted :
      {A : Type 0} (op : A → Async W _) (xs : List A) (n : ℕ)
      → Gives (Counted n (length xs)) (for_each op count_result xs (scanned_only n))
  sweep-Counted op xs n =
      for_each-Gives op count_result (Counted n) (result-Counted n) xs (scanned_only n) (refl, refl)

  sweep-Within :
      {A : Type 0} (op : A → Async W _) (xs : List A) (n : ℕ)
      → length xs ≤ n
      → Gives WithinScan (for_each op count_result xs (scanned_only n))
  sweep-Within op xs n h =
      widen-Gives (λ r c. let e = c.0 in let k = c.1 in omega arith) (sweep-Counted op xs n)

  sweep-Budget :
      {A : Type 0} (op : A → Async W _) (xs : List A) (budget : ℕ)
      → Gives
          (UsesBudget budget)
          (for_each op count_result (slice budget xs) (scanned_only (length xs)))
  sweep-Budget op xs budget =
      widen-Gives
        (λ r c. let e = c.0 in let k = c.1 in let l = length-slice budget xs in omega arith)
        (sweep-Counted op (slice budget xs) (length xs))

  loss-Within :
      {A : Type 0} (op : A → Async W _) (xs : List A)
      → Gives WithinScan (for_each op count_loss xs (scanned_only (length xs)))
  loss-Within op xs =
      widen-Gives (λ r c. let e = c.0 in let k = c.1 in omega arith)
        (for_each-Gives op count_loss (CountedAtMost (length xs)) (loss-Counted (length xs)) xs
          (scanned_only (length xs)) (refl, omega arith))

  reap-Within :
      {A : Type 0} (op : A → Async W Unit) (xs : List A) (n : ℕ)
      → length xs ≤ n
      → Gives ReapsWithinScan (for_each op count_reap xs (nothing_reaped n))
  reap-Within op xs n h =
      widen-Gives (λ r c. let e = c.0 in let k = c.1 in omega arith)
        (for_each-Gives op count_reap (ReapCounted n) (reap-Counted n) xs (nothing_reaped n)
          (refl, refl))

module _ {W : Type 0} (deps : ReconcilerDeps W) where
  abbrev budget : ℕ
  budget = (new_reconciler deps).converge_budget

  drift-Gives : Gives WithinScan (detect_drift deps)
  unfolding detect_drift
  drift-Gives = listed-Gives _ (λ active. loss-Within _ active)

  references-Gives : (refs : List SnapshotReference) → Gives WithinScan (drift_of deps refs)
  references-Gives [] = pure-Gives _ _ (omega arith)
  references-Gives (ref ∷ refs) = listed-Gives _ (λ existing.
      sweep-Within _ (filter (is_missing existing) (ref ∷ refs)) (length (ref ∷ refs))
        (length-filter-le (is_missing existing) (ref ∷ refs)))

  storage_drift-Gives : Gives WithinScan (detect_storage_drift deps)
  unfolding detect_storage_drift
  storage_drift-Gives = listed-Gives _ references-Gives

  provisioning-Gives : Gives WithinScan (recover_provisioning deps)
  unfolding recover_provisioning
  provisioning-Gives =
      listed-Gives _
        (λ xs. reading-Gives (λ w. sweep-Within _ _ (length xs) (length-select_idle xs _ _)))

  idle-Gives : Gives WithinScan (run_once deps)
  unfolding run_once
  idle-Gives =
      listed-Gives _
        (λ xs. reading-Gives (λ w. sweep-Within _ _ (length xs) (length-select_idle xs _ _)))

  snapshots-Gives : Gives WithinScan (snapshot_due deps)
  unfolding snapshot_due
  snapshots-Gives =
      listed-Gives _ (λ xs. reading-Gives (λ w. sweep-Within _ _ (length xs) (length-due xs _ _ _)))

  errors-Gives : Gives (UsesBudget budget) (recover_errors deps)
  unfolding recover_errors
  errors-Gives = listed-Gives _ (λ xs. sweep-Budget _ xs budget)

  deletions-Gives : Gives (UsesBudget budget) (finish_deletions deps)
  unfolding finish_deletions
  deletions-Gives = listed-Gives _ (λ xs. sweep-Budget _ xs budget)

  stopping-Gives : Gives (UsesBudget budget) (finish_stopping deps)
  unfolding finish_stopping
  stopping-Gives = listed-Gives _ (λ xs. sweep-Budget _ xs budget)

  tasks-Gives :
      (references : Option FleetReferences) (c : Option (ComputeProvider W))
      → Gives ReapsWithinScan (reap_tasks_of deps references c)
  unfolding select_orphan_tasks
  tasks-Gives references none = pure-Gives _ _ (omega arith)
  tasks-Gives references (some c) = by_list c.list_workspace_tasks refl
    where
      by_list :
          (o : Option (Async W (List WorkspaceTaskRef)))
          → c.list_workspace_tasks ≡ o
          → Gives ReapsWithinScan (reap_tasks_of deps references (some c))
      by_list none e = rw e (pure-Gives _ _ (omega arith))
      by_list (some m) e = rw e (
          listed-Gives _ (λ refs. listed-Gives _ (λ xs. reading-Gives (λ w.
            reap-Within _ _ (length xs)
              (length-filter-le (task_is_orphan refs (deps.clock w) _) xs)))))

  secrets-Gives :
      (references : Option FleetReferences) (c : Option (ComputeProvider W))
      → Gives ReapsWithinScan (reap_secrets_of deps references c)
  unfolding select_orphan_secrets
  secrets-Gives references none = pure-Gives _ _ (omega arith)
  secrets-Gives references (some c) =
      by_ports c.list_workspace_agent_secrets c.delete_agent_secret refl refl
    where
      by_ports :
          (o : Option (Async W (List WorkspaceAgentSecretRef))) (d : Option (String → Async W Unit))
          → c.list_workspace_agent_secrets ≡ o
          → c.delete_agent_secret ≡ d
          → Gives ReapsWithinScan (reap_secrets_of deps references (some c))
      by_ports none d e g = rw e (pure-Gives _ _ (omega arith))
      by_ports (some m) none e g = rw (e, g) (pure-Gives _ _ (omega arith))
      by_ports (some m) (some d) e g =
          rw (e, g)
            (listed-Gives _ (λ xs. listed-Gives _ (λ live. reading-Gives (λ w.
              reap-Within _ _ (length xs)
                (length-filter-le (secret_is_orphan live (deps.clock w) _) xs)))))

  abbrev pub IsAccounted : MaintenanceResult → Type 0
  IsAccounted r =
      WithinScan r.provisioning
      × WithinScan r.drift
      × WithinScan r.storage_drift
      × UsesBudget budget r.recovered
      × UsesBudget budget r.deletions
      × UsesBudget budget r.stopping
      × WithinScan r.idle
      × WithinScan r.snapshots
      × ReapsWithinScan r.tasks
      × ReapsWithinScan r.secrets

  maintenance-Gives : Gives IsAccounted (run_maintenance deps)
  unfolding run_maintenance reap_all reap_orphan_tasks reap_orphan_secrets
  maintenance-Gives = bind-Gives _ provisioning-Gives (λ a pa. bind-Gives _ drift-Gives (λ b pb.
      bind-Gives _ storage_drift-Gives (λ c pc. bind-Gives _ errors-Gives (λ d pd.
        bind-Gives _ deletions-Gives (λ e pe. bind-Gives _ stopping-Gives (λ f pf.
          listed-Gives _ (λ g. bind-Gives _ idle-Gives (λ h ph.
            bind-Gives _ snapshots-Gives (λ i pi. listed-Gives _ (λ references.
              bind-Gives _ (tasks-Gives (some references) deps.compute) (λ j pj.
                bind-Gives _ (secrets-Gives (some references) deps.compute) (λ k pk.
                  listed-Gives (prune_task_definitions deps) (λ l.
                    listed-Gives (collect_garbage deps (some references)) (λ m.
                      listed-Gives (reconcile_owner_counts deps) (λ n.
                        listed-Gives (control_plane_idle_shutdown deps) (λ o.
                          pure-Gives IsAccounted (tick_result a b c d e f g h i j k l m n o)
                            (pa, pb, pc, pd, pe, pf, ph, pi, pj, pk)))))))))))))))))

  -- In the result of a tick, whatever the calls answered or threw: the sweeps of provisioning, drift, idle
  -- workspaces and snapshots count at most one outcome for each record scanned; those of errors,
  -- deletions and stops count exactly one for each record up to the budget, so that no failure keeps
  -- another record from its turn; and no more tasks and secrets are reaped or failed than were scanned.
  pub maintenance-IsAccounted : (w : W) → Holds IsAccounted (run_maintenance deps w).0
  maintenance-IsAccounted w = maintenance-Gives.gives w
