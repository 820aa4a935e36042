-- ===== src/Cost/Window.antt =====
-- packages/core/src/observability/cost.ts: a bill clipped to a window.
use ecs_dev_desktop.Common.{
  ℕ, ◌+◌, ◌-◌, ◌≤◌, ◌≡◌, inl, inr, refl, ap, ◌∙◌, false, List, [], ◌∷◌, ◌++◌, ltb, Bool-cases,
  arith,
}
use ecs_dev_desktop.Cost.{
  WalkPhase, unbilled, running, stopped, teardown, retained, in_phase, terminated, Interval,
  BillingIntervals, WalkTotals, fold_open, larger, smaller, push_open, total_ms, clip,
  clip_intervals,
}
use ecs_dev_desktop.Cost.Totals.{totals_of}

abbrev pub window : ℕ → ℕ → Interval
window from to = record { from_ms = from; to_ms = to }

-- How much of an interval lies in a window.
abbrev pub overlap : ℕ → ℕ → Interval → ℕ
overlap from to i = smaller i.to_ms to - larger i.from_ms from

abbrev pub overlap_ms : ℕ → ℕ → List Interval → ℕ
overlap_ms from to [] = 0
overlap_ms from to (i ∷ is) = overlap from to i + overlap_ms from to is

total_ms-clip :
    (from to : ℕ) (is : List Interval) → total_ms (clip (window from to) is) ≡ overlap_ms from to is
total_ms-clip from to [] = refl
total_ms-clip from to (i ∷ is) =
    let ih = total_ms-clip from to is in
    elim (Bool-cases (ltb (larger i.from_ms from) (smaller i.to_ms to))) [
      | inl e ↦ rw e (ap (◌+◌ (overlap from to i)) ih)
      | inr e ↦
          let z : overlap from to i ≡ 0 = past (larger i.from_ms from) (smaller i.to_ms to) e in
          let pad : overlap_ms from to is ≡ 0 + overlap_ms from to is = omega arith in
          rw (e, z) (ih ∙ pad)
    ]
  where
    past : (a b : ℕ) → ltb a b ≡ false → b - a ≡ 0
    past a b e = ground arith

overlap-split :
    (from mid to : ℕ) (i : Interval)
    → from ≤ mid
    → mid ≤ to
    → overlap from mid i + overlap mid to i ≡ overlap from to i
overlap-split from mid to i h k = ground arith

pub overlap_ms-split :
    (from mid to : ℕ) (is : List Interval)
    → from ≤ mid
    → mid ≤ to
    → overlap_ms from mid is + overlap_ms mid to is ≡ overlap_ms from to is
overlap_ms-split from mid to [] h k = refl
overlap_ms-split from mid to (i ∷ is) h k =
    let ih = overlap_ms-split from mid to is h k in
    let e = overlap-split from mid to i h k in omega arith

abbrev pub overlaps : ℕ → ℕ → BillingIntervals → WalkTotals
overlaps from to b = record {
  running_ms = overlap_ms from to b.running;
  stopped_ms = overlap_ms from to b.stopped;
  teardown_ms = overlap_ms from to b.teardown;
}

pub totals_of-clip :
    (from to : ℕ) (b : BillingIntervals)
    → totals_of (clip_intervals b (window from to)) ≡ overlaps from to b
unfolding clip_intervals
totals_of-clip from to b =
    rw
      (
        total_ms-clip from to b.running,
        total_ms-clip from to b.stopped,
        total_ms-clip from to b.teardown,
      )
      refl

overlap_ms-push :
    (cut since at_ms : ℕ) (is : List Interval)
    → overlap_ms 0 cut (is ++ record { from_ms = since; to_ms = larger since at_ms } ∷ [])
      ≡ overlap_ms 0 cut is + (smaller at_ms cut - since)
overlap_ms-push cut since at_ms [] = ground arith
overlap_ms-push cut since at_ms (i ∷ is) =
    let ih = overlap_ms-push cut since at_ms is in omega arith

pub overlaps-push :
    (cut : ℕ) (p : WalkPhase) (since at_ms : ℕ) (b : BillingIntervals)
    → overlaps 0 cut (push_open p (record { from_ms = since; to_ms = larger since at_ms }) b)
      ≡ fold_open (overlaps 0 cut b) p since (smaller at_ms cut)
overlaps-push cut (in_phase unbilled) since at_ms b = refl
overlaps-push cut (in_phase running) since at_ms b =
    rw (overlap_ms-push cut since at_ms b.running) refl
overlaps-push cut (in_phase stopped) since at_ms b =
    rw (overlap_ms-push cut since at_ms b.stopped) refl
overlaps-push cut (in_phase teardown) since at_ms b =
    rw (overlap_ms-push cut since at_ms b.teardown) refl
overlaps-push cut (in_phase retained) since at_ms b =
    rw (overlap_ms-push cut since at_ms b.stopped) refl
overlaps-push cut terminated since at_ms b = refl

pub fold-nothing :
    (t : WalkTotals) (p : WalkPhase) (since to_ms : ℕ)
    → to_ms ≤ since
    → fold_open t p since to_ms ≡ t
fold-nothing t (in_phase unbilled) since to_ms h = refl
fold-nothing t (in_phase running) since to_ms h =
    let e : t.running_ms + (to_ms - since) ≡ t.running_ms = omega arith in rw e refl
fold-nothing t (in_phase stopped) since to_ms h =
    let e : t.stopped_ms + (to_ms - since) ≡ t.stopped_ms = omega arith in rw e refl
fold-nothing t (in_phase teardown) since to_ms h =
    let e : t.teardown_ms + (to_ms - since) ≡ t.teardown_ms = omega arith in rw e refl
fold-nothing t (in_phase retained) since to_ms h =
    let e : t.stopped_ms + (to_ms - since) ≡ t.stopped_ms = omega arith in rw e refl
fold-nothing t terminated since to_ms h = refl

abbrev pub add_totals : WalkTotals → WalkTotals → WalkTotals
add_totals a b = record {
  running_ms = a.running_ms + b.running_ms;
  stopped_ms = a.stopped_ms + b.stopped_ms;
  teardown_ms = a.teardown_ms + b.teardown_ms;
}
