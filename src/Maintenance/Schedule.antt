-- ===== src/Maintenance/Schedule.antt =====
-- How old the last snapshot of a workspace can be when the schedule does not select it:
-- packages/core/src/maintenance/select.ts.
use Prim.Native.Nat.{max}
use ecs_dev_desktop.Common.{
  Option-cases, ℕ, ◌+◌, ◌<◌, ◌≡◌, ◌⊎◌, inl, inr, true, false, Option, none, some, List, [], ◌∷◌,
  includes, All, or_else, arith, Bool-cases, string_eq,
}
use ecs_dev_desktop.States.{WorkspaceId, IsoTimestamp}
use ecs_dev_desktop.Maintenance.{SnapshotCandidate, EarlyCadence, is_due, select_due_for_snapshot}
use ecs_dev_desktop.Maintenance.Sweep.{selected-covers}

-- The snapshot of `c` is there and younger than `ms`.
abbrev pub IsFresh : ℕ → IsoTimestamp → SnapshotCandidate → Type 0
IsFresh ms now c = (at : IsoTimestamp) × (c.latest_snapshot_at ≡ some at) × (now < at + ms)

-- The longest interval that applies to a candidate: its own, or the longer of the two cadences.
abbrev pub longest_interval : ℕ → Option EarlyCadence → SnapshotCandidate → ℕ
longest_interval interval_ms none c = or_else c.snapshot_interval_ms interval_ms
longest_interval interval_ms (some e) c =
    or_else c.snapshot_interval_ms (max interval_ms e.interval_ms)

not_due-IsFresh :
    (c : SnapshotCandidate) (now : IsoTimestamp) (interval_ms : ℕ) (early : Option EarlyCadence)
    → is_due now interval_ms early c ≡ false
    → IsFresh (longest_interval interval_ms early c) now c
unfolding is_due
not_due-IsFresh c now interval_ms early h = elim (Option-cases c.latest_snapshot_at) [
  | inl e ↦ absurd (cc)
  | inr (at, e) ↦ (at, e, ground arith)
]

module _ (now : IsoTimestamp) (interval_ms : ℕ) (early : Option EarlyCadence) where
  selected_or_IsFresh :
      (candidates : List SnapshotCandidate) (due : List WorkspaceId)
      → All (λ c. is_due now interval_ms early c ≡ true → includes due c.id ≡ true) candidates
      → All
          (λ c. (includes due c.id ≡ true) ⊎ IsFresh (longest_interval interval_ms early c) now c)
          candidates
  selected_or_IsFresh [] due h = tt
  selected_or_IsFresh (c ∷ cs) due h = (
    elim (Bool-cases (is_due now interval_ms early c)) [
      | inl e ↦ inl (h.0 e)
      | inr e ↦ inr (not_due-IsFresh c now interval_ms early e)
    ],
    selected_or_IsFresh cs due h.1,
  )

  -- Every candidate is selected, or has a snapshot that is younger than its own interval, or than the
  -- longer of the two cadences where it has no interval of its own.
  pub unselected-IsFresh :
      (candidates : List SnapshotCandidate)
      → All
          (λ c.
            (includes (select_due_for_snapshot candidates now interval_ms early) c.id ≡ true)
            ⊎ IsFresh (longest_interval interval_ms early c) now c)
          candidates
  unfolding select_due_for_snapshot
  unselected-IsFresh candidates =
      let due = select_due_for_snapshot candidates now interval_ms early in
      selected_or_IsFresh candidates due
        (selected-covers (λ c. c.id) (is_due now interval_ms early) candidates due (λ i m. m))
