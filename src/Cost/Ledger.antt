-- ===== src/Cost/Ledger.antt =====
-- packages/control-plane/src/cost-service.ts: the checkpoints of the ledger and the sessions of the two
-- reports. What the service reads (the ledger, its tail, the workspaces, the stored rows) is given.
use ecs_dev_desktop.Common.{
  ℕ, String, Bool, Option, none, some, List, [], ◌∷◌, ◌==◌, nat_eq, string_eq, includes, or_else,
  if◌then◌else◌,
}
use ecs_dev_desktop.Result.{Result, ok, err}
use ecs_dev_desktop.Cost.{
  AuditEvent, WalkPhase, unbilled, running, stopped, teardown, retained, in_phase, terminated,
  WalkTotals, BillingState, Resumed, derive_billing_state, derive_billing_intervals, resume_billing,
}
use ecs_dev_desktop.Cost.Price.{
  Floats, Pricing, WorkspaceSizing, CostBreakdown, SessionCost, WorkspaceCostInput, price_durations,
  price_intervals,
}
use ecs_dev_desktop.Cost.Sessions.{
  WorkspaceDto, Sessions, SizingError, Instant, earliest_at, ids_of, group_sessions, events_of,
  owner_of, record_of, dto_state, sizing_of,
}

abbrev pub phase_name : WalkPhase → String
phase_name (in_phase unbilled) = "none"
phase_name (in_phase running) = "running"
phase_name (in_phase stopped) = "stopped"
phase_name (in_phase teardown) = "teardown"
phase_name (in_phase retained) = "retained"
phase_name terminated = "terminated"

-- `none` where the source throws
unfoldable pub as_phase : String → Option WalkPhase
as_phase value =
    if value == "running"
    then some (in_phase running)
    else (if value == "stopped"
        then some (in_phase stopped)
        else (if value == "teardown"
            then some (in_phase teardown)
            else (if value == "retained"
                then some (in_phase retained)
                else (if value == "none"
                    then some (in_phase unbilled)
                    else (if value == "terminated" then some terminated else none)))))

module _ (n : Floats) where
  pub data CostRollupRecord : Type 0 where
    priced :
        String
        → String
        → Instant
        → String
        → WorkspaceSizing n
        → WalkTotals
        → String
        → CostRollupRecord
    unpriced : String → String → Instant → String → SizingError → CostRollupRecord

  module _ (date_parse : String → Option ℕ) where
    -- The row of a workspace in `rollup`: its id, its owner, the checkpoint, the start of the ledger, and
    -- its size and state at the checkpoint.
    abbrev pub checkpoint_row :
        String
        → String
        → Instant
        → String
        → BillingState
        → Result (WorkspaceSizing n) SizingError
        → CostRollupRecord
    checkpoint_row id owner now start s (err x) = unpriced id owner now start x
    checkpoint_row id owner now start s (ok sizing) =
        priced id owner now start sizing s.totals (phase_name s.phase)

    abbrev pub row_of : Sessions → List WorkspaceDto → Instant → String → String → CostRollupRecord
    row_of sessions workspaces now start id =
        let events = events_of id sessions in
        let w = record_of id workspaces in
        checkpoint_row id (owner_of events w) now start
          (derive_billing_state date_parse events now.ms) (sizing_of n events w)

    abbrev pub rows_of :
        Sessions → List WorkspaceDto → Instant → String → List String → List CostRollupRecord
    rows_of sessions workspaces now start [] = []
    rows_of sessions workspaces now start (id ∷ ids) =
        row_of sessions workspaces now start id ∷ rows_of sessions workspaces now start ids

    -- What `rollup` stores
    unfoldable pub rollup :
        (String → String → Bool)
        → List AuditEvent
        → List WorkspaceDto
        → Instant
        → List CostRollupRecord
    rollup is_before events workspaces now =
        let sessions = group_sessions events in
        rows_of sessions workspaces now (earliest_at is_before events now.text)
          (ids_of sessions workspaces)

    abbrev pub rolled_session :
        String
        → String
        → WorkspaceSizing n
        → Option WorkspaceDto
        → Bool
        → CostBreakdown n
        → SessionCost n
    rolled_session id owner sizing w is_terminated cost = record {
      workspace_id = id;
      owner = owner;
      sizing = sizing;
      state = or_else (dto_state w) (if is_terminated then "terminated" else "unknown");
      is_terminated = is_terminated;
      cost = cost;
    }

    abbrev pub push_rolled :
        String
        → String
        → WorkspaceSizing n
        → Option WorkspaceDto
        → Bool
        → Option (CostBreakdown n)
        → Option (List (SessionCost n))
        → Option (List (SessionCost n))
    push_rolled id owner sizing w is_terminated none rest = none
    push_rolled id owner sizing w is_terminated (some cost) none = none
    push_rolled id owner sizing w is_terminated (some cost) (some rest) =
        some (rolled_session id owner sizing w is_terminated cost ∷ rest)

    abbrev pub price_resumed : Resumed → Pricing n → WorkspaceSizing n → Option (CostBreakdown n)
    price_resumed r pricing sizing =
        price_durations n r.totals.running_ms r.totals.stopped_ms r.totals.teardown_ms pricing
          sizing

    abbrev pub price_row :
        String
        → String
        → ℕ
        → WorkspaceSizing n
        → WalkTotals
        → Option WalkPhase
        → List AuditEvent
        → Option WorkspaceDto
        → Pricing n
        → ℕ
        → Option (List (SessionCost n))
        → Option (List (SessionCost n))
    price_row id owner at sizing totals none tail w pricing now rest = none
    price_row id owner at sizing totals (some phase) tail w pricing now rest =
        let resumed =
          resume_billing date_parse (record { totals = totals; phase = phase }) at tail now in
        push_rolled id owner sizing w resumed.terminated (price_resumed resumed pricing sizing) rest

    -- The loop of `rollupReport` over the stored rows, before the sessions that are pushed after it
    abbrev pub price_rows :
        List CostRollupRecord
        → Sessions
        → List WorkspaceDto
        → Pricing n
        → ℕ
        → Option (List (SessionCost n))
        → Option (List (SessionCost n))
    price_rows [] tail workspaces pricing now later = later
    price_rows (unpriced id owner at start x ∷ rows) tail workspaces pricing now later =
        price_rows rows tail workspaces pricing now later
    price_rows (priced id owner at start sizing totals phase ∷ rows) tail workspaces pricing now
          later =
        price_row id owner at.ms sizing totals (as_phase phase) (events_of id tail)
          (record_of id workspaces) pricing now (price_rows rows tail workspaces pricing now later)

    -- The issues of the rows, before those that are pushed after them
    abbrev pub row_issues :
        List CostRollupRecord → List (String × SizingError) → List (String × SizingError)
    row_issues [] later = later
    row_issues (unpriced id owner at start x ∷ rows) later = (id, x) ∷ row_issues rows later
    row_issues (priced id owner at start sizing totals phase ∷ rows) later = row_issues rows later

    -- `rolled`
    abbrev pub rolled_ids : List CostRollupRecord → List String
    rolled_ids [] = []
    rolled_ids (unpriced id owner at start x ∷ rows) = id ∷ rolled_ids rows
    rolled_ids (priced id owner at start sizing totals phase ∷ rows) = id ∷ rolled_ids rows

    abbrev pub price_newborn :
        String
        → List AuditEvent
        → Option WorkspaceDto
        → Result (WorkspaceSizing n) SizingError
        → Pricing n
        → ℕ
        → Option (List (SessionCost n))
        → Option (List (SessionCost n))
    price_newborn id events w (err x) pricing now rest = rest
    price_newborn id events w (ok sizing) pricing now rest =
        let intervals = derive_billing_intervals date_parse events now in
        push_rolled id (owner_of events w) sizing w intervals.terminated
          (price_intervals n intervals pricing sizing) rest

    -- The loop over the workspaces that were born after the checkpoint
    abbrev pub price_born :
        List String → Sessions → List WorkspaceDto → Pricing n → ℕ → Option (List (SessionCost n))
    price_born rolled [] workspaces pricing now = some []
    price_born rolled ((id, events) ∷ tail) workspaces pricing now =
        let rest = price_born rolled tail workspaces pricing now in
        let w = record_of id workspaces in
        if includes rolled id
        then rest
        else price_newborn id events w (sizing_of n events w) pricing now rest

  module _ (locale_le : String → String → Bool) where
    -- An input of the full scan, before those of the other ids; it is left out when it has no sizing.
    abbrev pub push_input :
        String
        → String
        → Option String
        → List AuditEvent
        → Result (WorkspaceSizing n) SizingError
        → List (WorkspaceCostInput n locale_le)
        → List (WorkspaceCostInput n locale_le)
    push_input id owner state events (err x) rest = rest
    push_input id owner state events (ok sizing) rest =
        record { workspace_id = id; owner = owner; sizing = sizing; state = state; events = events }
        ∷ rest

    abbrev pub inputs_of :
        Sessions → List WorkspaceDto → List String → List (WorkspaceCostInput n locale_le)
    inputs_of sessions workspaces [] = []
    inputs_of sessions workspaces (id ∷ ids) =
        let rest = inputs_of sessions workspaces ids in
        let events = events_of id sessions in
        let w = record_of id workspaces in
        push_input id (owner_of events w) (dto_state w) events (sizing_of n events w) rest

  abbrev pub push_issue :
      String
      → Result (WorkspaceSizing n) SizingError
      → List (String × SizingError)
      → List (String × SizingError)
  push_issue id (err x) rest = (id, x) ∷ rest
  push_issue id (ok sizing) rest = rest

  abbrev pub issues_of : Sessions → List WorkspaceDto → List String → List (String × SizingError)
  issues_of sessions workspaces [] = []
  issues_of sessions workspaces (id ∷ ids) =
      push_issue id (sizing_of n (events_of id sessions) (record_of id workspaces))
        (issues_of sessions workspaces ids)

  abbrev pub born_issues : List String → Sessions → List WorkspaceDto → List (String × SizingError)
  born_issues rolled [] workspaces = []
  born_issues rolled ((id, events) ∷ tail) workspaces =
      let rest = born_issues rolled tail workspaces in
      if includes rolled id
      then rest
      else push_issue id (sizing_of n events (record_of id workspaces)) rest

  module _ (date_parse : String → Option ℕ) where
    -- `bySession` of `rollupReport`; `none` where the source throws
    abbrev pub rollup_sessions :
        List CostRollupRecord
        → Sessions
        → List WorkspaceDto
        → Pricing n
        → ℕ
        → Option (List (SessionCost n))
    rollup_sessions rows tail workspaces pricing now =
        price_rows date_parse rows tail workspaces pricing now
          (price_born date_parse (rolled_ids date_parse rows) tail workspaces pricing now)

    -- `unpriced` of `rollupReport`
    abbrev pub rollup_issues :
        List CostRollupRecord → Sessions → List WorkspaceDto → List (String × SizingError)
    rollup_issues rows tail workspaces =
        row_issues date_parse rows (born_issues (rolled_ids date_parse rows) tail workspaces)
