-- ===== src/Cost/Bill.antt =====
-- packages/core/src/observability/cost.ts: how much is billed, and when billing ends.
use ecs_dev_desktop.Common.{
  ℕ, ◌+◌, ◌-◌, ◌≤◌, ◌≡◌, inl, inr, refl, sym, ap, subst, ◌∙◌, String, true, Option, none, some,
  List, [], ◌∷◌, filter, All, Any, Bool-cases, arith, All-sort, sort-Ascends, Any-sort, Any-filter,
  Ascends,
}
use ecs_dev_desktop.Cost.{
  AuditEvent, OpenPhase, WalkPhase, unbilled, running, stopped, teardown, retained, in_phase,
  terminated, next_phase, WalkTotals, Walk, fold_open, purge_action, is_within, instant,
  chronological, walk_to, walk_events, ends_terminated, no_totals, derive_billing_intervals,
}
use ecs_dev_desktop.Cost.Chronology.{chronological-through}
use ecs_dev_desktop.Cost.Totals.{totals_of}
use ecs_dev_desktop.Cost.Resume.{
  walked, closed, resumed, full_bill, full_bill-resume, scan-full_bill, start, terminated_stays,
  reopened,
}

-- All the time that is billed, in whichever phase.
abbrev pub billed_ms : WalkTotals → ℕ
billed_ms t = t.running_ms + t.stopped_ms + t.teardown_ms

fold-billed_ms :
    (t : WalkTotals) (p : WalkPhase) (since to_ms : ℕ)
    → billed_ms (fold_open t p since to_ms) ≤ billed_ms t + (to_ms - since)
fold-billed_ms t (in_phase unbilled) since to_ms = omega arith
fold-billed_ms t (in_phase running) since to_ms = omega arith
fold-billed_ms t (in_phase stopped) since to_ms = omega arith
fold-billed_ms t (in_phase teardown) since to_ms = omega arith
fold-billed_ms t (in_phase retained) since to_ms = omega arith
fold-billed_ms t terminated since to_ms = omega arith

module _ (date_parse : String → Option ℕ) where
  billed_from :
      (first now : ℕ) (es : List AuditEvent) (t : WalkTotals) (p : WalkPhase) (since : ℕ)
      → All (λ e. since ≤ instant date_parse e) es
      → Ascends (instant date_parse) es
      → All (λ e. instant date_parse e ≤ now) es
      → first + billed_ms t ≤ since
      → since ≤ now
      → first
          + billed_ms (closed now (walk_events date_parse es (walked date_parse t p since))).totals
        ≤ now
  billed_from first now [] t p since a s n h k = let l = fold-billed_ms t p since now in omega arith
  billed_from first now (e ∷ es) t terminated since a s n h k = omega arith
  billed_from first now (e ∷ es) t (in_phase p) since a s n h k =
      on_next (next_phase p e.action) refl (λ u q since'. billed_from first now es u q since')
    where
      on_next :
          (next : Option WalkPhase)
          → next_phase p e.action ≡ next
          → ((u : WalkTotals) (q : WalkPhase) (since' : ℕ)
              → All (λ e. since' ≤ instant date_parse e) es
              → Ascends (instant date_parse) es
              → All (λ e. instant date_parse e ≤ now) es
              → first + billed_ms u ≤ since'
              → since' ≤ now
              → first
                  + billed_ms
                      (closed now (walk_events date_parse es (walked date_parse u q since'))).totals
                ≤ now)
          → first
              + billed_ms
                  (closed now (
                    walk_events date_parse
                      (e ∷ es)
                      (walked date_parse t (in_phase p) since))).totals
            ≤ now
      on_next none q ih = rw q (ih t (in_phase p) since a.1 s.1 n.1 h k)
      on_next (some next) q ih =
          let at = instant date_parse e in
          let l = fold-billed_ms t (in_phase p) since at in
          let before = a.0 in
          let sum : first + billed_ms (fold_open t (in_phase p) since at) ≤ at = omega arith in
          rw q (ih (fold_open t (in_phase p) since at) next at s.0 s.1 n.1 sum n.0)

  ledger_from :
      (first now : ℕ) (es : List AuditEvent)
      → All (λ e. first ≤ instant date_parse e) es
      → Ascends (instant date_parse) es
      → All (λ e. instant date_parse e ≤ now) es
      → billed_ms (closed now (walk_events date_parse es (start date_parse))).totals ≤ now - first
  ledger_from first now [] f s n = omega arith
  ledger_from first now (e ∷ es) f s n =
      on_next (next_phase unbilled e.action) refl (ledger_from first now es f.1 s.1 n.1)
    where
      on_next :
          (next : Option WalkPhase)
          → next_phase unbilled e.action ≡ next
          → billed_ms (closed now (walk_events date_parse es (start date_parse))).totals
            ≤ now - first
          → billed_ms (closed now (walk_events date_parse (e ∷ es) (start date_parse))).totals
            ≤ now - first
      on_next none q ih = rw q ih
      on_next (some next) q ih =
          let l =
            billed_from first now es no_totals next (instant date_parse e) s.0 s.1 n.1
              (let h = f.0 in omega arith) n.0 in
          rw q (omega (arith, l))

  -- When no event up to now is earlier than an instant, the time that is billed in all phases together
  -- is at most the time from that instant to now.
  pub bill_within_ledger :
      (events : List AuditEvent) (first now : ℕ)
      → All (λ e. is_within date_parse none now e ≡ true → first ≤ instant date_parse e) events
      → billed_ms (totals_of (derive_billing_intervals date_parse events now)) ≤ now - first
  bill_within_ledger events first now h =
      let known = filter (is_within date_parse none now) events in
      let bound =
        All-sort (instant date_parse) (λ e. first ≤ instant date_parse e) known (kept events h) in
      subst (λ t. billed_ms t ≤ now - first)
        (sym (ap (λ r. r.totals) (scan-full_bill date_parse events now)))
        (ledger_from first now (chronological date_parse none now events) bound
          (sort-Ascends (instant date_parse) known)
          (chronological-through date_parse none now events))
    where
      kept :
          (es : List AuditEvent)
          → All (λ e. is_within date_parse none now e ≡ true → first ≤ instant date_parse e) es
          → All (λ e. first ≤ instant date_parse e) (filter (is_within date_parse none now) es)
      kept [] a = tt
      kept (e ∷ es) a = elim (Bool-cases (is_within date_parse none now e)) [
        | inl q ↦ rw q (a.0 q, kept es a.1)
        | inr q ↦ rw q (kept es a.1)
      ]

  purge-next_phase :
      (p : OpenPhase) (action : String)
      → action ≡ purge_action
      → next_phase p action ≡ some terminated
  unfolding next_phase
  purge-next_phase p action h = rw h refl

  purged_from :
      (es : List AuditEvent) (t : WalkTotals) (p : WalkPhase) (since : ℕ)
      → Any (λ e. e.action ≡ purge_action) es
      → (walk_events date_parse es (walked date_parse t p since)).phase ≡ terminated
  purged_from [] t p since h = elim h [ ]
  purged_from (e ∷ es) t terminated since h = refl
  purged_from (e ∷ es) t (in_phase p) since (inl h) =
      let at = instant date_parse e in
      rw (purge-next_phase p e.action h)
        (ap (λ w. w.phase) (terminated_stays date_parse es (fold_open t (in_phase p) since at) at))
  purged_from (e ∷ es) t (in_phase p) since (inr h) =
      let w =
        walk_to date_parse (instant date_parse e) (next_phase p e.action)
          (walked date_parse t (in_phase p) since) in
      purged_from es w.totals w.phase w.open_since h

  terminated-reopened :
      (es : List AuditEvent) (cut now : ℕ) (w : Walk)
      → w.phase ≡ terminated
      → closed now (walk_events date_parse es (reopened cut w)) ≡ closed cut w
  terminated-reopened es cut now w h = by_phase w.phase h
    where
      by_phase :
          (p : WalkPhase)
          → p ≡ terminated
          → closed now
              (walk_events date_parse es (reopened cut (walked date_parse w.totals p w.open_since)))
            ≡ closed cut (walked date_parse w.totals p w.open_since)
      by_phase (in_phase p) e = cc
      by_phase terminated e = ap (closed now) (terminated_stays date_parse es w.totals cut)

  -- When one of the events up to a checkpoint is the purge of the workspace, the durations that are
  -- billed at any later instant are those that were billed at the checkpoint, whatever events follow,
  -- and the workspace stands terminated.
  pub purge_ends_billing :
      (events : List AuditEvent) (cut now : ℕ)
      → cut ≤ now
      → Any (λ e. (e.action ≡ purge_action) × (is_within date_parse none cut e ≡ true)) events
      → (totals_of (derive_billing_intervals date_parse events now)
          ≡ totals_of (derive_billing_intervals date_parse events cut))
        × ((derive_billing_intervals date_parse events now).terminated ≡ true)
  purge_ends_billing events cut now h purged = (
    ap (λ r. r.totals)
        (scan-full_bill date_parse events now
          ∙ ap (resumed date_parse) same
          ∙ sym (scan-full_bill date_parse events cut)),
    ap (λ r. r.terminated) (scan-full_bill date_parse events now ∙ ap (resumed date_parse) same)
        ∙ ap ends_terminated ended,
  )
    where
      known : List AuditEvent
      known = chronological date_parse none cut events

      ended : (walk_events date_parse known (start date_parse)).phase ≡ terminated
      ended = purged_from known no_totals (in_phase unbilled) 0 (
          Any-sort (instant date_parse) (λ e. e.action ≡ purge_action)
            (filter (is_within date_parse none cut) events)
            (Any-filter (λ e. e.action ≡ purge_action) (is_within date_parse none cut) events
              purged))

      same : full_bill date_parse events now ≡ full_bill date_parse events cut
      same =
          sym (full_bill-resume date_parse events cut now h)
          ∙ terminated-reopened (chronological date_parse (some cut) now events) cut now
              (walk_events date_parse known (start date_parse)) ended
