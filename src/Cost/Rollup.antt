-- ===== src/Cost/Rollup.antt =====
-- packages/control-plane/src/cost-service.ts: the report from the checkpoints against that of the full scan.
use ecs_dev_desktop.Common.{
  ℕ, ◌≤◌, String, Bool, Option, none, some, List, [], ◌∷◌, ◌++◌, ◌≡◌, refl, ap, ◌∙◌, string_eq,
  filter, All, sort_by,
}
use ecs_dev_desktop.Result.{Result, ok, err}
use ecs_dev_desktop.Cost.{
  AuditEvent, WalkPhase, unbilled, running, stopped, teardown, retained, in_phase, terminated,
  BillingState, Resumed, is_within, instant, derive_billing_state, derive_billing_intervals,
  resume_billing, walk_events, no_totals,
}
use ecs_dev_desktop.Cost.Totals.{totals_of}
use ecs_dev_desktop.Cost.Resume.{resume_is_full_scan, closed}
use ecs_dev_desktop.Cost.Price.{
  Floats, Pricing, WorkspaceSizing, SessionCost, WorkspaceCostInput, price_sessions, push_session,
}
use ecs_dev_desktop.Cost.Ledger.{
  CostRollupRecord, phase_name, as_phase, row_of, checkpoint_row, rows_of, rollup, price_rows,
  price_row, push_rolled, price_resumed, push_input, inputs_of, row_issues, issues_of, push_issue,
  price_born, born_issues, rolled_ids, rollup_sessions, rollup_issues,
}
use ecs_dev_desktop.Cost.Sessions.{
  WorkspaceDto, Sessions, SizingError, Instant, earliest_at, ids_of, group_sessions, events_of,
  owner_of, record_of, dto_state, sizing_of,
}
use ecs_dev_desktop.Cost.Grouped.{within_session}
use ecs_dev_desktop.Cost.Born.{push_same, born_ids, IsBorn, born_as_inputs, born_issues_as_inputs}

as_phase-phase_name : (p : WalkPhase) → as_phase (phase_name p) ≡ some p
unfolding as_phase
as_phase-phase_name (in_phase unbilled) = refl
as_phase-phase_name (in_phase running) = refl
as_phase-phase_name (in_phase stopped) = refl
as_phase-phase_name (in_phase teardown) = refl
as_phase-phase_name (in_phase retained) = refl
as_phase-phase_name terminated = refl

module _ (n : Floats) (locale_le : String → String → Bool) (date_parse : String → Option ℕ)
    (to_iso_string : ℕ → String) where
  state_from_past :
      (es fs : List AuditEvent) (cut : ℕ)
      → filter (is_within date_parse none cut) es ≡ filter (is_within date_parse none cut) fs
      → derive_billing_state date_parse es cut ≡ derive_billing_state date_parse fs cut
  unfolding derive_billing_state
  state_from_past es fs cut q =
      ap
        (λ xs. closed cut (
          walk_events date_parse (sort_by (instant date_parse) xs)
            (record { totals = no_totals; phase = in_phase unbilled; open_since = 0 })))
        q

  abbrev pub scanned : List AuditEvent → ℕ → Resumed
  scanned es now = record {
    totals = totals_of (derive_billing_intervals date_parse es now);
    terminated = (derive_billing_intervals date_parse es now).terminated;
  }

  row_as_input :
      (id owner : String) (s : BillingState) (x : Result (WorkspaceSizing n) SizingError)
      (tail : Sessions) (ws : List WorkspaceDto) (es : List AuditEvent) (pricing : Pricing n)
      (cut : Instant) (now : ℕ) (start : String) (rows : List (CostRollupRecord n))
      (later : Option (List (SessionCost n))) (inputs : List (WorkspaceCostInput n locale_le))
      → resume_billing date_parse s cut.ms (events_of id tail) now ≡ scanned es now
      → price_rows n date_parse rows tail ws pricing now later
        ≡ price_sessions n locale_le date_parse to_iso_string inputs pricing now none
      → price_rows n date_parse
          (checkpoint_row n date_parse id owner cut start s x ∷ rows)
          tail
          ws
          pricing
          now
          later
        ≡ price_sessions n locale_le date_parse to_iso_string
            (push_input n locale_le id owner (dto_state (record_of id ws)) es x inputs)
            pricing
            now
            none
  row_as_input id owner s (err x) tail ws es pricing cut now start rows later inputs resumes rest =
      rest
  row_as_input id owner s (ok sizing) tail ws es pricing cut now start rows later inputs resumes
        rest =
      let w = record_of id ws in
      let pushed = price_rows n date_parse rows tail ws pricing now later in
      let i = derive_billing_intervals date_parse es now in
      ap
        (λ p.
          price_row n date_parse id owner cut.ms sizing s.totals p (events_of id tail) w pricing now
            pushed)
        (as_phase-phase_name s.phase)
      ∙ ap
          (λ r.
            push_rolled n date_parse id owner sizing w r.terminated
              (price_resumed n date_parse r pricing sizing) pushed)
          resumes
      ∙ push_same n locale_le date_parse to_iso_string id owner sizing w es i.terminated
          (price_resumed n date_parse (scanned es now) pricing sizing) pushed
      ∙ ap
          (push_session n locale_le date_parse to_iso_string
            (record {
              workspace_id = id;
              owner = owner;
              sizing = sizing;
              state = dto_state w;
              events = es;
            })
            none i.terminated (price_resumed n date_parse (scanned es now) pricing sizing))
          rest

  issue_as_input :
      (id owner : String) (s : BillingState) (x : Result (WorkspaceSizing n) SizingError)
      (cut : Instant) (start : String) (rows : List (CostRollupRecord n))
      (later issues : List (String × SizingError))
      → row_issues n date_parse rows later ≡ issues
      → row_issues n date_parse (checkpoint_row n date_parse id owner cut start s x ∷ rows) later
        ≡ push_issue n id x issues
  issue_as_input id owner s (err x) cut start rows later issues q = ap (◌∷◌ (id, x)) q
  issue_as_input id owner s (ok sizing) cut start rows later issues q = q

  -- A workspace has the owner and the size that it had when its row was stored.
  abbrev pub KeepsTerms :
      List AuditEvent → List WorkspaceDto → List AuditEvent → List WorkspaceDto → String → Type 0
  KeepsTerms past ws0 events ws id =
      let before = events_of id (group_sessions past) in
      let es = events_of id (group_sessions events) in
      (owner_of before (record_of id ws0) ≡ owner_of es (record_of id ws))
      × (sizing_of n before (record_of id ws0) ≡ sizing_of n es (record_of id ws))

  rows_of_as_inputs :
      (past tail events : List AuditEvent) (ws0 ws : List WorkspaceDto) (ids born : List String)
      (pricing : Pricing n) (cut : Instant) (now : ℕ) (start : String)
      (later : Option (List (SessionCost n))) (issues : List (String × SizingError))
      → cut.ms ≤ now
      → filter (is_within date_parse none cut.ms) past
        ≡ filter (is_within date_parse none cut.ms) events
      → filter (is_within date_parse (some cut.ms) now) tail
        ≡ filter (is_within date_parse (some cut.ms) now) events
      → All (KeepsTerms past ws0 events ws) ids
      → later
        ≡ price_sessions n locale_le date_parse to_iso_string
            (inputs_of n locale_le (group_sessions events) ws born)
            pricing
            now
            none
      → issues ≡ issues_of n (group_sessions events) ws born
      → (price_rows n date_parse
            (rows_of n date_parse (group_sessions past) ws0 cut start ids)
            (group_sessions tail)
            ws
            pricing
            now
            later
          ≡ price_sessions n locale_le date_parse to_iso_string
              (inputs_of n locale_le (group_sessions events) ws (ids ++ born))
              pricing
              now
              none)
        × (row_issues n date_parse
              (rows_of n date_parse (group_sessions past) ws0 cut start ids)
              issues
            ≡ issues_of n (group_sessions events) ws (ids ++ born))
  rows_of_as_inputs past tail events ws0 ws [] born pricing cut now start later issues h h1 h2 keeps
        q r =
      (q, r)
  rows_of_as_inputs past tail events ws0 ws (id ∷ ids) born pricing cut now start later issues h h1
        h2 keeps q r =
      let rest =
        rows_of_as_inputs past tail events ws0 ws ids born pricing cut now start later issues h h1
          h2 keeps.1 q r in
      let before = events_of id (group_sessions past) in
      let es = events_of id (group_sessions events) in
      let since = events_of id (group_sessions tail) in
      let owner = owner_of es (record_of id ws) in
      let sizing = sizing_of n es (record_of id ws) in
      let rows = rows_of n date_parse (group_sessions past) ws0 cut start ids in
      let s = derive_billing_state date_parse before cut.ms in
      let resumes =
        ap (λ t. resume_billing date_parse t cut.ms since now)
          (state_from_past before es cut.ms
            (within_session (is_within date_parse none cut.ms) past events id h1))
        ∙ resume_is_full_scan date_parse es since cut.ms now h
            (within_session (is_within date_parse (some cut.ms) now) tail events id h2) in
      let same_row : row_of n date_parse (group_sessions past) ws0 cut start id
          ≡ checkpoint_row n date_parse id owner cut start s sizing =
        ap
          (λ o.
            checkpoint_row n date_parse id o cut start s (sizing_of n before (record_of id ws0)))
          keeps.0.0
        ∙ ap (checkpoint_row n date_parse id owner cut start s) keeps.0.1 in
      (
        ap (λ r. price_rows n date_parse (r ∷ rows) (group_sessions tail) ws pricing now later)
              same_row
            ∙ row_as_input id owner s sizing (group_sessions tail) ws es pricing cut now start rows
                later (inputs_of n locale_le (group_sessions events) ws (ids ++ born)) resumes
                rest.0,
        ap (λ r. row_issues n date_parse (r ∷ rows) issues) same_row
            ∙ issue_as_input id owner s sizing cut start rows issues
                (issues_of n (group_sessions events) ws (ids ++ born)) rest.1,
      )

  -- The workspaces of a report from the rows
  abbrev pub report_ids :
      (String → String → Bool)
      → List AuditEvent
      → List AuditEvent
      → List WorkspaceDto
      → Instant
      → List String
  report_ids is_before past tail ws0 cut =
      ids_of (group_sessions past) ws0
      ++ born_ids n locale_le date_parse to_iso_string
          (rolled_ids n date_parse (rollup n date_parse is_before past ws0 cut))
          (group_sessions tail)

  -- Where the ledger at the checkpoint has the events up to there that the ledger has now, the tail has
  -- those after it up to now, each workspace that was known there has the owner and the size that it had
  -- there, and a workspace that has no row has all its session events in the tail: the report from the
  -- rows that `rollup` stored prices the sessions that the full scan of the ledger prices without a
  -- window for the same workspaces, in the order of the rows and then of the tail, and names the same
  -- workspaces as unpriced for the same reasons.
  pub rollup_is_full_scan :
      (is_before : String → String → Bool) (past tail events : List AuditEvent)
      (ws0 ws : List WorkspaceDto) (pricing : Pricing n) (cut : Instant) (now : ℕ)
      → cut.ms ≤ now
      → filter (is_within date_parse none cut.ms) past
        ≡ filter (is_within date_parse none cut.ms) events
      → filter (is_within date_parse (some cut.ms) now) tail
        ≡ filter (is_within date_parse (some cut.ms) now) events
      → All (KeepsTerms past ws0 events ws) (ids_of (group_sessions past) ws0)
      → All
          (IsBorn n locale_le date_parse to_iso_string
            (rolled_ids n date_parse (rollup n date_parse is_before past ws0 cut))
            events)
          (group_sessions tail)
      → (rollup_sessions n date_parse
            (rollup n date_parse is_before past ws0 cut)
            (group_sessions tail)
            ws
            pricing
            now
          ≡ price_sessions n locale_le date_parse to_iso_string
              (inputs_of n locale_le
                (group_sessions events)
                ws
                (report_ids is_before past tail ws0 cut))
              pricing
              now
              none)
        × (rollup_issues n date_parse
              (rollup n date_parse is_before past ws0 cut)
              (group_sessions tail)
              ws
            ≡ issues_of n (group_sessions events) ws (report_ids is_before past tail ws0 cut))
  unfolding rollup
  rollup_is_full_scan is_before past tail events ws0 ws pricing cut now h h1 h2 keeps born =
      let rolled = rolled_ids n date_parse (rollup n date_parse is_before past ws0 cut) in
      rows_of_as_inputs past tail events ws0 ws (ids_of (group_sessions past) ws0)
        (born_ids n locale_le date_parse to_iso_string rolled (group_sessions tail)) pricing cut now
        (earliest_at is_before past cut.text)
        (price_born n date_parse rolled (group_sessions tail) ws pricing now)
        (born_issues n rolled (group_sessions tail) ws) h h1 h2 keeps
        (born_as_inputs n locale_le date_parse to_iso_string rolled events (group_sessions tail) ws
          pricing now born)
        (born_issues_as_inputs n locale_le date_parse to_iso_string rolled events
          (group_sessions tail) ws born)
