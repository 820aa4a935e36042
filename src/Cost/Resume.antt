-- ===== src/Cost/Resume.antt =====
-- packages/core/src/observability/cost.ts: a bill resumed from a checkpoint against the full scan.
use ecs_dev_desktop.Common.{
  ℕ, ◌+◌, ◌-◌, ◌≤◌, ◌≡◌, ◌⊎◌, inl, inr, refl, sym, ap, ◌∙◌, String, Option, none, some, List, [],
  ◌∷◌, ◌++◌, filter, All, arith, sort_by,
}
use ecs_dev_desktop.Cost.{
  AuditEvent, WalkPhase, unbilled, running, stopped, teardown, retained, in_phase, terminated,
  next_phase, BillingState, WalkTotals, Scan, Walk, Resumed, fold_open, is_within, instant,
  chronological, walk_to, walk_events, ends_terminated, no_intervals, no_totals, scan_events,
  derive_billing_intervals, derive_billing_state, resume_billing,
}
use ecs_dev_desktop.Cost.Chronology.{chronological-split, chronological-through, chronological-past}
use ecs_dev_desktop.Cost.Totals.{totals_of, close-fold, scan_events-totalled}

-- What a walk has billed when it is closed at an instant.
abbrev pub closed : ℕ → Walk → BillingState
closed now w = record { totals = fold_open w.totals w.phase w.open_since now; phase = w.phase }

-- A walk closed at a checkpoint and opened again there.
abbrev pub reopened : ℕ → Walk → Walk
reopened cut w = record {
  totals = fold_open w.totals w.phase w.open_since cut;
  phase = w.phase;
  open_since = cut;
}

fold-fold :
    (t : WalkTotals) (p : WalkPhase) (since cut to_ms : ℕ)
    → since ≤ cut
    → cut ≤ to_ms
    → fold_open (fold_open t p since cut) p cut to_ms ≡ fold_open t p since to_ms
fold-fold t (in_phase unbilled) since cut to_ms h k = refl
fold-fold t (in_phase running) since cut to_ms h k =
    let e : t.running_ms + (cut - since) + (to_ms - cut) ≡ t.running_ms + (to_ms - since) =
      omega arith in
    rw e refl
fold-fold t (in_phase stopped) since cut to_ms h k =
    let e : t.stopped_ms + (cut - since) + (to_ms - cut) ≡ t.stopped_ms + (to_ms - since) =
      omega arith in
    rw e refl
fold-fold t (in_phase teardown) since cut to_ms h k =
    let e : t.teardown_ms + (cut - since) + (to_ms - cut) ≡ t.teardown_ms + (to_ms - since) =
      omega arith in
    rw e refl
fold-fold t (in_phase retained) since cut to_ms h k =
    let e : t.stopped_ms + (cut - since) + (to_ms - cut) ≡ t.stopped_ms + (to_ms - since) =
      omega arith in
    rw e refl
fold-fold t terminated since cut to_ms h k = refl

module _ (date_parse : String → Option ℕ) where
  abbrev pub walked : WalkTotals → WalkPhase → ℕ → Walk
  walked t p since = record { totals = t; phase = p; open_since = since }

  pub terminated_stays :
      (es : List AuditEvent) (t : WalkTotals) (since : ℕ)
      → walk_events date_parse es (walked t terminated since) ≡ walked t terminated since
  terminated_stays [] t since = refl
  terminated_stays (e ∷ es) t since = refl

  append_from :
      (es bs : List AuditEvent) (t : WalkTotals) (p : WalkPhase) (since : ℕ)
      → walk_events date_parse (es ++ bs) (walked t p since)
        ≡ walk_events date_parse bs (walk_events date_parse es (walked t p since))
  append_from [] bs t p since = refl
  append_from (e ∷ es) bs t (in_phase p) since =
      let w =
        walk_to date_parse (instant date_parse e) (next_phase p e.action)
          (walked t (in_phase p) since) in
      append_from es bs w.totals w.phase w.open_since
  append_from (e ∷ es) bs t terminated since = sym (terminated_stays bs t since)

  pub walk_events-append :
      (es bs : List AuditEvent) (w : Walk)
      → walk_events date_parse (es ++ bs) w
        ≡ walk_events date_parse bs (walk_events date_parse es w)
  walk_events-append es bs w = append_from es bs w.totals w.phase w.open_since

  walk_to-since :
      (cut at_ms : ℕ) (next : Option WalkPhase) (w : Walk)
      → at_ms ≤ cut
      → w.open_since ≤ cut
      → (walk_to date_parse at_ms next w).open_since ≤ cut
  walk_to-since cut at_ms none w h k = k
  walk_to-since cut at_ms (some next) w h k = h

  since_from :
      (cut : ℕ) (es : List AuditEvent) (t : WalkTotals) (p : WalkPhase) (since : ℕ)
      → All (λ e. instant date_parse e ≤ cut) es
      → since ≤ cut
      → (walk_events date_parse es (walked t p since)).open_since ≤ cut
  since_from cut [] t p since h k = k
  since_from cut (e ∷ es) t (in_phase p) since h k =
      let next = next_phase p e.action in
      let at = instant date_parse e in
      let w = walk_to date_parse at next (walked t (in_phase p) since) in
      since_from cut es w.totals w.phase w.open_since h.1
        (walk_to-since cut at next (walked t (in_phase p) since) h.0 k)
  since_from cut (e ∷ es) t terminated since h k = k

  reopen_step :
      (cut at_ms : ℕ) (next : Option WalkPhase) (w : Walk)
      → w.open_since ≤ cut
      → cut ≤ at_ms
      → (next ≡ none)
        ⊎ (walk_to date_parse at_ms next (reopened cut w) ≡ walk_to date_parse at_ms next w)
  reopen_step cut at_ms none w h k = inl refl
  reopen_step cut at_ms (some next) w h k =
      inr (ap (λ t. walked t next at_ms) (fold-fold w.totals w.phase w.open_since cut at_ms h k))

  -- To close at a checkpoint and open again there bills nothing twice and nothing less.
  pub reopen_from :
      (cut now : ℕ) (es : List AuditEvent) (t : WalkTotals) (p : WalkPhase) (since : ℕ)
      → All (λ e. cut ≤ instant date_parse e) es
      → since ≤ cut
      → cut ≤ now
      → closed now (walk_events date_parse es (reopened cut (walked t p since)))
        ≡ closed now (walk_events date_parse es (walked t p since))
  reopen_from cut now [] t p since h k l =
      ap (λ u. record { totals = u; phase = p }) (fold-fold t p since cut now k l)
  reopen_from cut now (e ∷ es) t terminated since h k l = refl
  reopen_from cut now (e ∷ es) t (in_phase p) since h k l =
      let w = walked t (in_phase p) since in
      elim (reopen_step cut (instant date_parse e) (next_phase p e.action) w k h.0) [
        | inl q ↦ rw q (reopen_from cut now es t (in_phase p) since h.1 k l)
        | inr q ↦ ap (λ v. closed now (walk_events date_parse es v)) q
      ]

  abbrev pub start : Walk
  start = walked no_totals (in_phase unbilled) 0

  -- The full scan, as totals and a phase.
  abbrev pub full_bill : List AuditEvent → ℕ → BillingState
  full_bill events now =
      closed now (walk_events date_parse (chronological date_parse none now events) start)

  abbrev pub resumed : BillingState → Resumed
  resumed s = record { totals = s.totals; terminated = ends_terminated s.phase }

  pub scan-full_bill :
      (events : List AuditEvent) (now : ℕ)
      → record {
        totals = totals_of (derive_billing_intervals date_parse events now);
        terminated = (derive_billing_intervals date_parse events now).terminated;
      }
        ≡ resumed (full_bill events now)
  unfolding derive_billing_intervals
  scan-full_bill events now =
      let s0 : Scan = record {
        intervals = no_intervals;
        phase = in_phase unbilled;
        open_since = 0;
      } in
      let es = chronological date_parse none now events in
      let s = scan_events date_parse es s0 in
      ap (λ t. record { totals = t; terminated = ends_terminated s.phase }) (close-fold s now)
      ∙ ap (λ w. resumed (closed now w)) (scan_events-totalled date_parse es s0)

  pub full_bill-resume :
      (events : List AuditEvent) (cut now : ℕ)
      → cut ≤ now
      → closed now (
          walk_events date_parse (chronological date_parse (some cut) now events) (
            reopened cut (walk_events date_parse (chronological date_parse none cut events) start)))
        ≡ full_bill events now
  full_bill-resume events cut now h =
      let before = chronological date_parse none cut events in
      let past = chronological date_parse (some cut) now events in
      let w = walk_events date_parse before start in
      reopen_from cut now past w.totals w.phase w.open_since
        (chronological-past date_parse cut now events)
        (since_from cut before no_totals (in_phase unbilled) 0
          (chronological-through date_parse none cut events) (omega arith))
        h
      ∙ ap (closed now) (sym (walk_events-append before past start))
      ∙ ap (λ es. closed now (walk_events date_parse es start))
          (sym (chronological-split date_parse cut now events h))

  resumed_from :
      (t : WalkTotals) (p : WalkPhase) (cut : ℕ) (since : List AuditEvent) (now : ℕ)
      → resume_billing date_parse (record { totals = t; phase = p }) cut since now
        ≡ resumed (
            closed now (
              walk_events date_parse
                (chronological date_parse (some cut) now since)
                (walked t p cut)))
  unfolding resume_billing
  resumed_from t (in_phase p) cut since now = refl
  resumed_from t terminated cut since now =
      ap (λ w. resumed (closed now w))
        (sym (terminated_stays (chronological date_parse (some cut) now since) t cut))

  -- At a checkpoint that is not later than now, resuming from the state there, on any events of which
  -- those after the checkpoint are the ledger's, gives the durations and the flag of the full scan of
  -- the ledger.
  pub resume_is_full_scan :
      (events since : List AuditEvent) (cut now : ℕ)
      → cut ≤ now
      → filter (is_within date_parse (some cut) now) since
        ≡ filter (is_within date_parse (some cut) now) events
      → resume_billing date_parse (derive_billing_state date_parse events cut) cut since now
        ≡ record {
          totals = totals_of (derive_billing_intervals date_parse events now);
          terminated = (derive_billing_intervals date_parse events now).terminated;
        }
  unfolding derive_billing_state
  resume_is_full_scan events since cut now h same =
      let state =
        closed cut (walk_events date_parse (chronological date_parse none cut events) start) in
      resumed_from state.totals state.phase cut since now
      ∙ ap
          (λ es. resumed (
            closed now (
              walk_events date_parse (sort_by (instant date_parse) es)
                (walked state.totals state.phase cut))))
          same
      ∙ ap resumed (full_bill-resume events cut now h)
      ∙ sym (scan-full_bill events now)
