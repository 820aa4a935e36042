-- ===== src/Cost/Totals.antt =====
-- packages/core/src/observability/cost.ts: what the full scan and the checkpoint walk have in common.
use ecs_dev_desktop.Common.{
  ℕ, ◌+◌, ◌-◌, ◌≡◌, refl, ap, ◌∙◌, String, Option, none, some, List, [], ◌∷◌, ◌++◌, arith,
}
use ecs_dev_desktop.Cost.{
  AuditEvent, WalkPhase, unbilled, running, stopped, teardown, retained, in_phase, terminated,
  next_phase, Interval, BillingIntervals, WalkTotals, Scan, Walk, larger, push_open, close_open,
  fold_open, instant, scan_to, scan_events, walk_to, walk_events, total_ms,
}

-- The totals of the intervals of a scan.
abbrev pub totals_of : BillingIntervals → WalkTotals
totals_of b = record {
  running_ms = total_ms b.running;
  stopped_ms = total_ms b.stopped;
  teardown_ms = total_ms b.teardown;
}

-- The walk that keeps only the totals of a scan's intervals.
abbrev pub totalled : Scan → Walk
totalled s = record { totals = totals_of s.intervals; phase = s.phase; open_since = s.open_since }

total_ms-push :
    (is : List Interval) (since to_ms : ℕ)
    → total_ms (is ++ record { from_ms = since; to_ms = larger since to_ms } ∷ [])
      ≡ total_ms is + (to_ms - since)
total_ms-push [] since to_ms = ground arith
total_ms-push (i ∷ is) since to_ms = let ih = total_ms-push is since to_ms in omega arith

pub close-fold :
    (s : Scan) (to_ms : ℕ)
    → totals_of (close_open s to_ms) ≡ fold_open (totals_of s.intervals) s.phase s.open_since to_ms
close-fold s to_ms = by_phase s.phase s.intervals s.open_since
  where
    by_phase :
        (p : WalkPhase) (b : BillingIntervals) (since : ℕ)
        → totals_of (push_open p (record { from_ms = since; to_ms = larger since to_ms }) b)
          ≡ fold_open (totals_of b) p since to_ms
    by_phase (in_phase unbilled) b since = refl
    by_phase (in_phase running) b since = rw (total_ms-push b.running since to_ms) refl
    by_phase (in_phase stopped) b since = rw (total_ms-push b.stopped since to_ms) refl
    by_phase (in_phase teardown) b since = rw (total_ms-push b.teardown since to_ms) refl
    by_phase (in_phase retained) b since = rw (total_ms-push b.stopped since to_ms) refl
    by_phase terminated b since = refl

module _ (date_parse : String → Option ℕ) where
  scan_to-totalled :
      (at_ms : ℕ) (next : Option WalkPhase) (s : Scan)
      → totalled (scan_to date_parse at_ms next s) ≡ walk_to date_parse at_ms next (totalled s)
  scan_to-totalled at_ms none s = refl
  scan_to-totalled at_ms (some next) s = rw (close-fold s at_ms) refl

  scan_from :
      (es : List AuditEvent) (b : BillingIntervals) (p : WalkPhase) (since : ℕ)
      → totalled
          (scan_events date_parse es (record { intervals = b; phase = p; open_since = since }))
        ≡ walk_events date_parse es (record { totals = totals_of b; phase = p; open_since = since })
  scan_from [] b p since = refl
  scan_from (e ∷ es) b (in_phase p) since =
      let next = next_phase p e.action in
      let s : Scan = record { intervals = b; phase = in_phase p; open_since = since } in
      let t = scan_to date_parse (instant date_parse e) next s in
      scan_from es t.intervals t.phase t.open_since
      ∙ ap (walk_events date_parse es) (scan_to-totalled (instant date_parse e) next s)
  scan_from (e ∷ es) b terminated since = refl

  -- The two loops go through the same phases, and agree on the totals.
  pub scan_events-totalled :
      (es : List AuditEvent) (s : Scan)
      → totalled (scan_events date_parse es s) ≡ walk_events date_parse es (totalled s)
  scan_events-totalled es s = scan_from es s.intervals s.phase s.open_since
