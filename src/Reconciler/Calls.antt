-- ===== src/Reconciler/Calls.antt =====
-- services/reconciler/src/index.ts: which calls a sweep makes, one by one.
use ecs_dev_desktop.Common.{
  ℕ, ◌+◌, ◌≤◌, ◌≡◌, ◌≢◌, ◌⊎◌, inl, inr, refl, ap, ◌∙◌, Bool, true, false, not, Option, none, some,
  List, [], ◌∷◌, ◌++◌, map, Bool-cases, leb, or_else, arith,
}
use ecs_dev_desktop.States.{WorkspaceId, IsoTimestamp}
use ecs_dev_desktop.Maintenance.{is_retained}
use ecs_dev_desktop.Reconciler.{ActiveWorkspace, select_idle, may_stop}
use ecs_dev_desktop.Reconciler.Action.{Outcome, returned, Async, for_each, continue, ◌>>=◌}
use ecs_dev_desktop.Reconciler.Ports.{ReconcilerDeps, new_reconciler}
use ecs_dev_desktop.Reconciler.Sweeps.{finish_deletions, run_once, slice, count_result}
use ecs_dev_desktop.Reconciler.Trace.{
  Call, Logged, noting, within, traced, active_listed, deleting_listed, stopped, deleting_finished,
}
use ecs_dev_desktop.Reconciler.Stages.{append_assoc, append_nil}

module _ {W A R C : Type 0} (call : A → Call) (op : A → Async W R) (count : Outcome R → C → C) where
  -- A loop makes its call for every member of its list, in order, whatever the outcomes.
  for_each-calls :
      (xs : List A) (c : C) (log : List Call) (w : W)
      → (for_each (λ x. noting (call x) (op x)) count xs c (log, w)).1.0 ≡ log ++ map call xs
  unfolding for_each noting
  for_each-calls [] c log w = append_nil log
  for_each-calls (x ∷ xs) c log w =
      for_each-calls xs (count (op x w).0 c) (log ++ call x ∷ []) (op x w).1
      ∙ append_assoc log (call x ∷ []) (map call xs)

module _ {W A B : Type 0} (c : Call) (m : Async W A) (f : A → Async (Logged W) B) where
  -- The world that a listing which returns leaves to the loop.
  listed :
      (a : A) (w w' : W) (log : List Call)
      → m w ≡ (returned a, w')
      → (noting c m >>= f) (log, w) ≡ f a (log ++ c ∷ [], w')
  unfolding noting ◌>>=◌
  listed a w w' log e =
      ap (λ r. continue (within (log ++ c ∷ []) r).0 f (within (log ++ c ∷ []) r).1) e

-- The workspace is not always on, and its window has passed since its last activity.
abbrev pub IsDue : IsoTimestamp → ℕ → ActiveWorkspace → Type 0
IsDue now ms a = (a.always_on ≢ some true) × (a.last_activity + or_else a.idle_stop_ms ms ≤ now)

-- The ids are those of the workspaces that are due, each once and in their order.
abbrev pub IsSelection : IsoTimestamp → ℕ → List ActiveWorkspace → List WorkspaceId → Type 0
IsSelection now ms [] ids = ids ≡ []
IsSelection now ms (a ∷ active) ids =
    (IsDue now ms a
      × ((rest : List WorkspaceId) × (ids ≡ a.id ∷ rest) × IsSelection now ms active rest))
    ⊎ ((IsDue now ms a → ⊥) × IsSelection now ms active ids)

not_always_on : (o : Option Bool) → not (is_retained o) ≡ true → o ≢ some true
not_always_on none h q = cc
not_always_on (some true) h q = cc
not_always_on (some false) h q = cc

always_on : (o : Option Bool) → not (is_retained o) ≡ false → o ≡ some true
always_on none h = cc
always_on (some true) h = refl
always_on (some false) h = cc

select_idle-IsSelection :
    (now : IsoTimestamp) (ms : ℕ) (active : List ActiveWorkspace)
    → IsSelection now ms active (select_idle active now ms)
unfolding select_idle
select_idle-IsSelection now ms [] = refl
select_idle-IsSelection now ms (a ∷ active) =
    let rest = select_idle-IsSelection now ms active in
    elim (Bool-cases (may_stop a)) [
      | inr m ↦ rw m (inr (λ due. due.0 (always_on a.always_on m), rest))
      | inl m ↦ elim (Bool-cases (leb (a.last_activity + or_else a.idle_stop_ms ms) now)) [
        | inl i ↦ rw (m, i) (inl ((not_always_on a.always_on m, ground arith), (_, refl, rest)))
        | inr i ↦ rw (m, i) (inr (λ due. let late = due.1 in ground arith, rest))
      ]
    ]

module _ {W : Type 0} (deps : ReconcilerDeps W) where
  -- When the deleting workspaces are listed, the sweep of deletions calls the service once for each of
  -- them up to the budget, in their order, whatever the earlier calls came to.
  pub deletions_attempt_each :
      (log : List Call) (w w' : W) (deleting : List WorkspaceId)
      → deps.service.list_deleting w ≡ (returned deleting, w')
      → (finish_deletions (traced deps) (log, w)).1.0
        ≡ log
          ++ deleting_listed
            ∷ map deleting_finished (slice (new_reconciler deps).converge_budget deleting)
  unfolding finish_deletions
  deletions_attempt_each log w w' deleting e =
      let each = slice (new_reconciler deps).converge_budget deleting in
      ap (λ r. r.1.0) (listed deleting_listed deps.service.list_deleting _ deleting w w' log e)
      ∙ for_each-calls deleting_finished deps.service.finish_deleting count_result each _
          (log ++ deleting_listed ∷ []) w'
      ∙ append_assoc log (deleting_listed ∷ []) (map deleting_finished each)

  -- When the active workspaces are listed, the idle sweep asks the service to stop exactly those that are
  -- not always on and whose own window, or else the default one, has passed since their last activity,
  -- each once, in their order, and guarded by the default window.
  pub idle_sweep_stops_exactly :
      (log : List Call) (w w' : W) (active : List ActiveWorkspace)
      → deps.service.list_active w ≡ (returned active, w')
      → (each : List WorkspaceId) × IsSelection
          (deps.clock w')
          (new_reconciler deps).idle_threshold_ms
          active
          each
        × ((run_once (traced deps) (log, w)).1.0
            ≡ log
              ++ active_listed
                ∷ map (λ id. stopped id (some (new_reconciler deps).idle_threshold_ms)) each)
  unfolding run_once
  idle_sweep_stops_exactly log w w' active e =
      let ms = (new_reconciler deps).idle_threshold_ms in
      let each = select_idle active (deps.clock w') ms in
      (
        each,
        select_idle-IsSelection (deps.clock w') ms active,
        ap (λ r. r.1.0) (listed active_listed deps.service.list_active _ active w w' log e)
            ∙ for_each-calls (λ id. stopped id (some ms)) (λ id. deps.service.stop id (some ms))
                count_result each _ (log ++ active_listed ∷ []) w'
            ∙ append_assoc log (active_listed ∷ []) (map (λ id. stopped id (some ms)) each),
      )
