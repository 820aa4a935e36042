-- ===== src/Cost.antt =====
-- packages/core/src/observability/cost.ts: the intervals and the durations that a workspace is billed
-- for, from its audit events. `Date.parse` is a parameter, `none` being NaN; an instant that a caller
-- has from its clock (`now`, a checkpoint) is given as the number of its milliseconds.
mod Tests
pub mod Totals
pub mod Chronology
pub mod Resume
pub mod Bill
pub mod Window
pub mod Difference
pub mod Price
pub mod Report
pub mod Sessions
pub mod Ledger
pub mod Grouped
pub mod Born
pub mod Rollup
pub mod Refresh
use ecs_dev_desktop.Common.{
  ℕ, ◌+◌, ◌-◌, ◌*◌, String, Bool, true, false, not, ◌&&◌, Option, none, some, List, [], ◌∷◌, ◌++◌,
  map, ◌==◌, string_eq, leb, ltb, or_else, filter, includes, sort_by, if◌then◌else◌,
}
use ecs_dev_desktop.Resources.{WorkspaceResources}

abbrev pub ms_per_hour : ℕ
ms_per_hour = 60 * 60 * 1_000

abbrev pub ms_per_day : ℕ
ms_per_day = 24 * ms_per_hour

abbrev pub running_start_actions : List String
running_start_actions = "session.create" ∷ "session.start" ∷ []

abbrev pub stop_action : String
stop_action = "session.stop"

abbrev pub teardown_start_action : String
teardown_start_action = "session.delete"

abbrev pub terminate_action : String
terminate_action = "session.terminated"

abbrev pub undelete_action : String
undelete_action = "session.undelete"

abbrev pub purge_action : String
purge_action = "session.purged"

abbrev pub snapshot_lost_action : String
snapshot_lost_action = "session.snapshot_lost"

-- packages/core/src/observability/audit.ts
pub record AuditEvent : Type 0 where
  pub at : String
  pub actor : String
  pub action : String
  pub target : String
  pub detail : String
  pub resources : Option WorkspaceResources

-- The source's phase "none" is `unbilled`.
pub data OpenPhase : Type 0 where
  unbilled : OpenPhase
  running : OpenPhase
  stopped : OpenPhase
  teardown : OpenPhase
  retained : OpenPhase

pub data WalkPhase : Type 0 where
  in_phase : OpenPhase → WalkPhase
  terminated : WalkPhase

abbrev pub on_start : OpenPhase → Option WalkPhase
on_start unbilled = some (in_phase running)
on_start stopped = some (in_phase running)
on_start _ = none

abbrev pub on_stop : OpenPhase → Option WalkPhase
on_stop running = some (in_phase stopped)
on_stop _ = none

abbrev pub on_teardown_start : OpenPhase → Option WalkPhase
on_teardown_start running = some (in_phase teardown)
on_teardown_start stopped = some (in_phase teardown)
on_teardown_start _ = none

abbrev pub on_terminate : OpenPhase → Option WalkPhase
on_terminate retained = none
on_terminate _ = some (in_phase retained)

abbrev pub on_undelete : OpenPhase → Option WalkPhase
on_undelete retained = some (in_phase stopped)
on_undelete _ = none

abbrev pub on_snapshot_lost : OpenPhase → Option WalkPhase
on_snapshot_lost stopped = some (in_phase unbilled)
on_snapshot_lost retained = some terminated
on_snapshot_lost _ = none

unfoldable pub next_phase : OpenPhase → String → Option WalkPhase
next_phase phase action =
    if includes running_start_actions action
    then on_start phase
    else (if action == stop_action
        then on_stop phase
        else (if action == teardown_start_action
            then on_teardown_start phase
            else (if action == terminate_action
                then on_terminate phase
                else (if action == undelete_action
                    then on_undelete phase
                    else (if action == purge_action
                        then some terminated
                        else (if action == snapshot_lost_action
                            then on_snapshot_lost phase
                            else none))))))

pub record Interval : Type 0 where
  pub from_ms : ℕ
  pub to_ms : ℕ

pub record BillingIntervals : Type 0 where
  pub running : List Interval
  pub stopped : List Interval
  pub teardown : List Interval
  pub terminated : Bool

pub record WalkTotals : Type 0 where
  pub running_ms : ℕ
  pub stopped_ms : ℕ
  pub teardown_ms : ℕ

pub record BillingState : Type 0 where
  pub totals : WalkTotals
  pub phase : WalkPhase

abbrev pub larger : ℕ → ℕ → ℕ
larger a b = if leb a b then b else a

abbrev pub smaller : ℕ → ℕ → ℕ
smaller a b = if leb a b then a else b

abbrev pub ends_terminated : WalkPhase → Bool
ends_terminated (in_phase retained) = true
ends_terminated (in_phase _) = false
ends_terminated terminated = true

-- What `resumeBilling` returns.
pub record Resumed : Type 0 where
  pub totals : WalkTotals
  pub terminated : Bool

-- The buckets of the full scan with the phase it is in, and since when.
pub record Scan : Type 0 where
  pub intervals : BillingIntervals
  pub phase : WalkPhase
  pub open_since : ℕ

-- The totals of the checkpoint walk with the phase it is in, and since when.
pub record Walk : Type 0 where
  pub totals : WalkTotals
  pub phase : WalkPhase
  pub open_since : ℕ

-- `bucket.push(i)` on the bucket of the phase
abbrev pub push_open : WalkPhase → Interval → BillingIntervals → BillingIntervals
push_open (in_phase running) i b = record b { running = b.running ++ i ∷ [] }
push_open (in_phase stopped) i b = record b { stopped = b.stopped ++ i ∷ [] }
push_open (in_phase retained) i b = record b { stopped = b.stopped ++ i ∷ [] }
push_open (in_phase teardown) i b = record b { teardown = b.teardown ++ i ∷ [] }
push_open (in_phase unbilled) i b = b
push_open terminated i b = b

abbrev pub close_open : Scan → ℕ → BillingIntervals
close_open s to_ms =
    push_open s.phase (record { from_ms = s.open_since; to_ms = larger s.open_since to_ms })
      s.intervals

abbrev pub fold_open : WalkTotals → WalkPhase → ℕ → ℕ → WalkTotals
fold_open t (in_phase running) since to_ms = record t {
  running_ms = t.running_ms + (to_ms - since);
}
fold_open t (in_phase stopped) since to_ms = record t {
  stopped_ms = t.stopped_ms + (to_ms - since);
}
fold_open t (in_phase retained) since to_ms = record t {
  stopped_ms = t.stopped_ms + (to_ms - since);
}
fold_open t (in_phase teardown) since to_ms = record t {
  teardown_ms = t.teardown_ms + (to_ms - since);
}
fold_open t (in_phase unbilled) since to_ms = t
fold_open t terminated since to_ms = t

abbrev pub no_intervals : BillingIntervals
no_intervals = record { running = []; stopped = []; teardown = []; terminated = false }

abbrev pub no_totals : WalkTotals
no_totals = record { running_ms = 0; stopped_ms = 0; teardown_ms = 0 }

module _ (date_parse : String → Option ℕ) where
  -- `!Number.isNaN(m) && m > afterMs && m <= throughMs`, where `none` is -∞
  abbrev pub is_after : Option ℕ → ℕ → Bool
  is_after none m = true
  is_after (some after_ms) m = ltb after_ms m

  abbrev pub parsed_within : Option ℕ → ℕ → Option ℕ → Bool
  parsed_within after through none = false
  parsed_within after through (some m) = is_after after m && leb m through

  abbrev pub is_within : Option ℕ → ℕ → AuditEvent → Bool
  is_within after through e = parsed_within after through (date_parse e.at)

  -- `Date.parse(e.at)` of an event that the filter has kept
  abbrev pub instant : AuditEvent → ℕ
  instant e = or_else (date_parse e.at) 0

  abbrev pub scan_to : ℕ → Option WalkPhase → Scan → Scan
  scan_to at_ms none s = s
  scan_to at_ms (some next) s = record {
    intervals = close_open s at_ms;
    phase = next;
    open_since = at_ms;
  }

  abbrev pub scan_events : List AuditEvent → Scan → Scan
  scan_events [] s = s
  scan_events (e ∷ es) s = elim s.phase [
    | in_phase phase ↦ scan_events es (scan_to (instant e) (next_phase phase e.action) s)
    | terminated ↦ s
  ]

  abbrev pub chronological : Option ℕ → ℕ → List AuditEvent → List AuditEvent
  chronological after through events = sort_by instant (filter (is_within after through) events)

  unfoldable pub derive_billing_intervals : List AuditEvent → ℕ → BillingIntervals
  derive_billing_intervals events now =
      let start : Scan = record {
        intervals = no_intervals;
        phase = in_phase unbilled;
        open_since = 0;
      } in
      let s = scan_events (chronological none now events) start in
      record (close_open s now) { terminated = ends_terminated s.phase }

  abbrev pub walk_to : ℕ → Option WalkPhase → Walk → Walk
  walk_to at_ms none w = w
  walk_to at_ms (some next) w = record {
    totals = fold_open w.totals w.phase w.open_since at_ms;
    phase = next;
    open_since = at_ms;
  }

  abbrev pub walk_events : List AuditEvent → Walk → Walk
  walk_events [] w = w
  walk_events (e ∷ es) w = elim w.phase [
    | in_phase phase ↦ walk_events es (walk_to (instant e) (next_phase phase e.action) w)
    | terminated ↦ w
  ]

  abbrev pub walk_billing : List AuditEvent → Option ℕ → ℕ → Walk → Walk
  walk_billing events after through init = walk_events (chronological after through events) init

  unfoldable pub derive_billing_state : List AuditEvent → ℕ → BillingState
  derive_billing_state events cut =
      let w =
        walk_billing events none cut
          (record { totals = no_totals; phase = in_phase unbilled; open_since = 0 }) in
      record { totals = fold_open w.totals w.phase w.open_since cut; phase = w.phase }

  unfoldable pub resume_billing : BillingState → ℕ → List AuditEvent → ℕ → Resumed
  resume_billing state cut events_after now = elim state.phase [
    | in_phase phase ↦
        let w =
          walk_billing events_after (some cut) now
            (record { totals = state.totals; phase = in_phase phase; open_since = cut }) in
        record {
          totals = fold_open w.totals w.phase w.open_since now;
          terminated = ends_terminated w.phase;
        }
    | terminated ↦ record { totals = state.totals; terminated = true }
  ]

abbrev pub total_ms : List Interval → ℕ
total_ms [] = 0
total_ms (i ∷ is) = (i.to_ms - i.from_ms) + total_ms is

abbrev pub clip_interval : Interval → ℕ → ℕ → Option Interval
clip_interval i from_ms to_ms =
    let from = larger i.from_ms from_ms in
    let to = smaller i.to_ms to_ms in
    if ltb from to then some (record { from_ms = from; to_ms = to }) else none

-- `.filter((i) => i !== null)`
abbrev pub present : List (Option Interval) → List Interval
present [] = []
present (none ∷ is) = present is
present (some i ∷ is) = i ∷ present is

abbrev pub clip : Interval → List Interval → List Interval
clip window xs = present (map (λ i. clip_interval i window.from_ms window.to_ms) xs)

unfoldable pub clip_intervals : BillingIntervals → Interval → BillingIntervals
clip_intervals intervals window = record {
  running = clip window intervals.running;
  stopped = clip window intervals.stopped;
  teardown = clip window intervals.teardown;
  terminated = intervals.terminated;
}
