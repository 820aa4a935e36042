-- ===== src/Cost/Difference.antt =====
-- packages/core/src/observability/cost.ts: the bill of a window as the difference of two bills.
use ecs_dev_desktop.Common.{
  ℕ, ◌≤◌, ◌≡◌, refl, sym, ap, ◌∙◌, String, Option, none, some, List, [], ◌∷◌, ◌++◌, All, arith,
}
use ecs_dev_desktop.Cost.{
  AuditEvent, WalkPhase, unbilled, in_phase, terminated, next_phase, BillingIntervals, Scan, Walk,
  fold_open, smaller, instant, chronological, scan_to, scan_events, close_open, clip_intervals,
  no_intervals, derive_billing_intervals,
}
use ecs_dev_desktop.Cost.Chronology.{chronological-split, chronological-through, chronological-past}
use ecs_dev_desktop.Cost.Totals.{totals_of}
use ecs_dev_desktop.Cost.{walk_to, walk_events}
use ecs_dev_desktop.Cost.Resume.{closed, scan-full_bill}
use ecs_dev_desktop.Cost.Window.{
  window, add_totals, overlaps, totals_of-clip, overlaps-push, overlap_ms-split, fold-nothing,
}

smaller-left : (a b : ℕ) → a ≤ b → smaller a b ≡ a
smaller-left a b h = ground arith

smaller-right : (a b : ℕ) → b ≤ a → smaller a b ≡ b
smaller-right a b h = ground arith

-- A scan as seen by a window that ends at an instant.
abbrev seen : ℕ → Scan → Walk
seen cut s = record {
  totals = overlaps 0 cut s.intervals;
  phase = s.phase;
  open_since = s.open_since;
}

overlaps-close :
    (cut at_ms : ℕ) (s : Scan)
    → overlaps 0 cut (close_open s at_ms)
      ≡ fold_open (overlaps 0 cut s.intervals) s.phase s.open_since (smaller at_ms cut)
overlaps-close cut at_ms s = overlaps-push cut s.phase s.open_since at_ms s.intervals

module _ (date_parse : String → Option ℕ) where
  abbrev scan_at : BillingIntervals → WalkPhase → ℕ → Scan
  scan_at b p since = record { intervals = b; phase = p; open_since = since }

  scan_to-seen :
      (cut at_ms : ℕ) (next : Option WalkPhase) (s : Scan)
      → at_ms ≤ cut
      → seen cut (scan_to date_parse at_ms next s) ≡ walk_to date_parse at_ms next (seen cut s)
  scan_to-seen cut at_ms none s h = refl
  scan_to-seen cut at_ms (some next) s h =
      ap (λ t. record { totals = t; phase = next; open_since = at_ms })
        (overlaps-close cut at_ms s
          ∙ ap (fold_open (overlaps 0 cut s.intervals) s.phase s.open_since)
              (smaller-left at_ms cut h))

  seen_from :
      (cut : ℕ) (es : List AuditEvent) (b : BillingIntervals) (p : WalkPhase) (since : ℕ)
      → All (λ e. instant date_parse e ≤ cut) es
      → seen cut (scan_events date_parse es (scan_at b p since))
        ≡ walk_events date_parse es (seen cut (scan_at b p since))
  seen_from cut [] b p since h = refl
  seen_from cut (e ∷ es) b terminated since h = refl
  seen_from cut (e ∷ es) b (in_phase p) since h =
      let next = next_phase p e.action in
      let s = scan_at b (in_phase p) since in
      let t = scan_to date_parse (instant date_parse e) next s in
      seen_from cut es t.intervals t.phase t.open_since h.1
      ∙ ap (walk_events date_parse es) (scan_to-seen cut (instant date_parse e) next s h.0)

  terminated_scan :
      (es : List AuditEvent) (b : BillingIntervals) (since : ℕ)
      → scan_events date_parse es (scan_at b terminated since) ≡ scan_at b terminated since
  terminated_scan [] b since = refl
  terminated_scan (e ∷ es) b since = refl

  scan_append :
      (es fs : List AuditEvent) (b : BillingIntervals) (p : WalkPhase) (since : ℕ)
      → scan_events date_parse (es ++ fs) (scan_at b p since)
        ≡ scan_events date_parse fs (scan_events date_parse es (scan_at b p since))
  scan_append [] fs b p since = refl
  scan_append (e ∷ es) fs b terminated since = sym (terminated_scan fs b since)
  scan_append (e ∷ es) fs b (in_phase p) since =
      let t =
        scan_to date_parse (instant date_parse e) (next_phase p e.action)
          (scan_at b (in_phase p) since) in
      scan_append es fs t.intervals t.phase t.open_since

  past_step :
      (cut at_ms : ℕ) (next : WalkPhase) (s : Scan)
      → cut ≤ at_ms
      → fold_open (overlaps 0 cut (close_open s at_ms)) next at_ms cut
        ≡ fold_open (overlaps 0 cut s.intervals) s.phase s.open_since cut
  past_step cut at_ms next s h =
      fold-nothing (overlaps 0 cut (close_open s at_ms)) next at_ms cut h
      ∙ overlaps-close cut at_ms s
      ∙ ap (fold_open (overlaps 0 cut s.intervals) s.phase s.open_since) (smaller-right at_ms cut h)

  past_from :
      (cut now : ℕ) (es : List AuditEvent) (b : BillingIntervals) (p : WalkPhase) (since : ℕ)
      → All (λ e. cut ≤ instant date_parse e) es
      → cut ≤ now
      → overlaps 0 cut (close_open (scan_events date_parse es (scan_at b p since)) now)
        ≡ fold_open (overlaps 0 cut b) p since cut
  past_from cut now [] b p since h k =
      overlaps-close cut now (scan_at b p since)
      ∙ ap (fold_open (overlaps 0 cut b) p since) (smaller-right now cut k)
  past_from cut now (e ∷ es) b terminated since h k = refl
  past_from cut now (e ∷ es) b (in_phase p) since h k =
      on_next (next_phase p e.action) refl (λ c q at. past_from cut now es c q at h.1 k)
    where
      on_next :
          (next : Option WalkPhase)
          → next_phase p e.action ≡ next
          → ((c : BillingIntervals) (q : WalkPhase) (at : ℕ)
              → overlaps 0 cut (close_open (scan_events date_parse es (scan_at c q at)) now)
                ≡ fold_open (overlaps 0 cut c) q at cut)
          → overlaps 0 cut
              (close_open (scan_events date_parse (e ∷ es) (scan_at b (in_phase p) since)) now)
            ≡ fold_open (overlaps 0 cut b) (in_phase p) since cut
      on_next none q ih = rw q (ih b (in_phase p) since)
      on_next (some next) q ih =
          let at = instant date_parse e in
          let s = scan_at b (in_phase p) since in
          rw q (ih (close_open s at) next at ∙ past_step cut at next s h.0)

  -- The part of a bill before an instant is the bill at that instant.
  overlaps-derive :
      (events : List AuditEvent) (cut now : ℕ)
      → cut ≤ now
      → overlaps 0 cut (derive_billing_intervals date_parse events now)
        ≡ totals_of (derive_billing_intervals date_parse events cut)
  unfolding derive_billing_intervals
  overlaps-derive events cut now h =
      let before = chronological date_parse none cut events in
      let past = chronological date_parse (some cut) now events in
      let s0 = scan_at no_intervals (in_phase unbilled) 0 in
      let s = scan_events date_parse before s0 in
      ap (λ es. overlaps 0 cut (close_open (scan_events date_parse es s0) now))
        (chronological-split date_parse cut now events h)
      ∙ ap (λ t. overlaps 0 cut (close_open t now))
          (scan_append before past no_intervals (in_phase unbilled) 0)
      ∙ past_from cut now past s.intervals s.phase s.open_since
          (chronological-past date_parse cut now events) h
      ∙ ap (λ w. (closed cut w).totals)
          (seen_from cut before no_intervals (in_phase unbilled) 0
            (chronological-through date_parse none cut events))
      ∙ sym (ap (λ r. r.totals) (scan-full_bill date_parse events cut))

  add-overlaps :
      (from to : ℕ) (b : BillingIntervals)
      → from ≤ to
      → add_totals (overlaps 0 from b) (overlaps from to b) ≡ overlaps 0 to b
  add-overlaps from to b h =
      rw
        (
          ← overlap_ms-split 0 from to b.running (omega arith) h,
          ← overlap_ms-split 0 from to b.stopped (omega arith) h,
          ← overlap_ms-split 0 from to b.teardown (omega arith) h,
        )
        refl

  -- For a window that ends by now, what is billed up to the window's start, together with the bill
  -- clipped to the window, is what is billed up to the window's end, in each phase.
  pub windowed_is_difference :
      (events : List AuditEvent) (from to now : ℕ)
      → from ≤ to
      → to ≤ now
      → add_totals (totals_of (derive_billing_intervals date_parse events from)) (
          totals_of
            (clip_intervals (derive_billing_intervals date_parse events now) (window from to)))
        ≡ totals_of (derive_billing_intervals date_parse events to)
  windowed_is_difference events from to now h k =
      let b = derive_billing_intervals date_parse events now in
      ap (add_totals (totals_of (derive_billing_intervals date_parse events from)))
        (totals_of-clip from to b)
      ∙ ap (λ t. add_totals t (overlaps from to b))
          (sym (overlaps-derive events from now (omega arith)))
      ∙ add-overlaps from to b h
      ∙ overlaps-derive events to now k
