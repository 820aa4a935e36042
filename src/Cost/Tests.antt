-- ===== src/Cost/Tests.antt =====
-- The billing model at concrete inputs.
use ecs_dev_desktop.Common.{
  ℕ, ◌+◌, ◌*◌, ◌/◌, ◌≡◌, inl, inr, refl, String, Bool, true, false, Option, none, some, List, [],
  ◌∷◌, ◌++◌, ◌==◌, ◌≤◌, ◌-◌, ◌⊎◌, ◌↔◌, string_eq, ltb, leb, if◌then◌else◌, arith, under, exchange,
  same, IsTotalOrder,
}
use ecs_dev_desktop.Cost.{
  AuditEvent, next_phase, derive_billing_intervals, derive_billing_state, resume_billing,
  clip_intervals,
}
use ecs_dev_desktop.Cost.Totals.{totals_of}
use ecs_dev_desktop.Cost.Resume.{resume_is_full_scan}
use ecs_dev_desktop.Cost.Bill.{billed_ms, bill_within_ledger, purge_ends_billing}
use ecs_dev_desktop.Cost.Window.{window, add_totals}
use ecs_dev_desktop.Cost.Difference.{windowed_is_difference}
use ecs_dev_desktop.Cost.Price.{Floats, Pricing, SessionCost, aggregate_fleet_cost, price_sessions}
use ecs_dev_desktop.Cost.Sessions.{no_resources, WorkspaceDto, Instant, is_session, group_sessions}
use ecs_dev_desktop.Cost.Ledger.{
  CostRollupRecord, unpriced, rollup, rollup_sessions, rollup_issues, inputs_of, issues_of,
}
use ecs_dev_desktop.Cost.Refresh.{rollup_if_stale, IsFresh, rollup_if_stale_iff}
use ecs_dev_desktop.Cost.Rollup.{rollup_is_full_scan, report_ids}
use ecs_dev_desktop.Cost.Report.{report_ignores_order, IsAttributed, report-IsAttributed}

abbrev parse : String → Option ℕ
parse s =
    if s == "t1"
    then some 10
    else (if s == "t2"
        then some 40
        else (if s == "t3" then some 90 else (if s == "t4" then some 100 else none)))

abbrev event : String → String → AuditEvent
event at action = record {
  at = at;
  actor = "owner";
  action = action;
  target = "w1";
  detail = "";
  resources = none;
}

-- Out of order, with an event whose timestamp is no date.
abbrev ledger : List AuditEvent
ledger =
    event "t2" "session.stop"
    ∷ event "t1" "session.create"
    ∷ event "soon" "session.purged"
    ∷ event "t3" "session.start"
    ∷ []

abbrev purged_ledger : List AuditEvent
purged_ledger =
    event "t4" "session.start" ∷ event "t3" "session.purged" ∷ event "t1" "session.create" ∷ []

derive_runs :
    totals_of (derive_billing_intervals parse ledger 120)
    ≡ record { running_ms = 60; stopped_ms = 50; teardown_ms = 0 }
unfolding derive_billing_intervals next_phase
derive_runs = refl

resume_is_full_scan_example :
    resume_billing parse (derive_billing_state parse ledger 50) 50 ledger 120 ≡ record {
      totals = totals_of (derive_billing_intervals parse ledger 120);
      terminated = (derive_billing_intervals parse ledger 120).terminated;
    }
resume_is_full_scan_example = resume_is_full_scan parse ledger ledger 50 120 (omega arith) refl

bill_within_ledger_example :
    billed_ms (totals_of (derive_billing_intervals parse ledger 120)) ≤ 120 - 10
bill_within_ledger_example =
    bill_within_ledger parse ledger 10 120
      ((λ _. omega arith), ((λ _. omega arith), ((λ e. cc), ((λ _. omega arith), tt))))

purge_ends_billing_example :
    (totals_of (derive_billing_intervals parse purged_ledger 500)
      ≡ totals_of (derive_billing_intervals parse purged_ledger 95))
    × ((derive_billing_intervals parse purged_ledger 500).terminated ≡ true)
purge_ends_billing_example =
    purge_ends_billing parse purged_ledger 95 500 (omega arith) (inr (inl (refl, refl)))

windowed_is_difference_example :
    add_totals
      (totals_of (derive_billing_intervals parse ledger 30))
      (totals_of (clip_intervals (derive_billing_intervals parse ledger 120) (window 30 95)))
    ≡ totals_of (derive_billing_intervals parse ledger 95)
windowed_is_difference_example =
    windowed_is_difference parse ledger 30 95 120 (omega arith) (omega arith)

-- Whole dollars stand for money here.
abbrev dollars : Floats
dollars = record {
  F = ℕ;
  of_nat = λ k. k;
  plus = ◌+◌;
  times = ◌*◌;
  divide = ◌/◌;
  exceeds = λ a b. ltb b a;
  is_finite_non_negative = λ _. true;
  is_finite_positive = λ k. ltb 0 k;
}

abbrev rates : Pricing dollars
rates = record {
  fargate_vcpu_hour_usd = 3;
  fargate_gb_hour_usd = 2;
  ebs_gb_month_usd = 1;
  snapshot_gb_month_usd = 1;
}

abbrev session : String → String → ℕ → SessionCost dollars
session id owner k = record {
  workspace_id = id;
  owner = owner;
  sizing = record { vcpu = 1; memory_gib = 2; volume_gib = 10 };
  state = "running";
  is_terminated = false;
  cost = record {
    compute_usd = k;
    volume_usd = 1;
    snapshot_usd = 0;
    total_usd = k + 1;
    running_ms = 100 * k;
    stopped_ms = 5;
    teardown_ms = 0;
  };
}

-- An order on the ids of the tests.
abbrev rank : String → ℕ
rank s = if s == "w1" then 1 else (if s == "w2" then 2 else 3)

abbrev rank_le : String → String → Bool
rank_le a b = leb (rank a) (rank b)

rank_le-IsTotalOrder : IsTotalOrder rank_le
rank_le-IsTotalOrder =
    (λ a b. total (rank a) (rank b), λ a b c. transitive (rank a) (rank b) (rank c))
  where
    total : (a b : ℕ) → (leb a b ≡ true) ⊎ (leb b a ≡ true)
    total a b = ground arith

    transitive : (a b c : ℕ) → leb a b ≡ true → leb b c ≡ true → leb a c ≡ true
    transitive a b c h k = ground arith

report_ignores_order_example :
    aggregate_fleet_cost dollars rank_le
      (session "w3" "ann" 7 ∷ session "w1" "bob" 5 ∷ session "w2" "ann" 4 ∷ [])
      rates
      "now"
      "start"
      []
    ≡ aggregate_fleet_cost dollars rank_le
        (session "w3" "ann" 7 ∷ session "w2" "ann" 4 ∷ session "w1" "bob" 5 ∷ [])
        rates
        "now"
        "start"
        []
report_ignores_order_example =
    report_ignores_order dollars rank_le rates "now" "start" rank_le-IsTotalOrder
      (under (exchange (inl (refl, refl)))) same

report-IsAttributed_example :
    IsAttributed dollars rank_le "ann"
      (session "w3" "ann" 7 ∷ session "w1" "bob" 5 ∷ session "w2" "ann" 4 ∷ [])
      (aggregate_fleet_cost dollars rank_le
        (session "w3" "ann" 7 ∷ session "w1" "bob" 5 ∷ session "w2" "ann" 4 ∷ [])
        rates
        "now"
        "start"
        [])
report-IsAttributed_example =
    report-IsAttributed dollars rank_le "ann"
      (session "w3" "ann" 7 ∷ session "w1" "bob" 5 ∷ session "w2" "ann" 4 ∷ []) rates "now" "start"
      []

-- `w1` runs on after the checkpoint at 50; `w2` has no record and no size in its event.
abbrev two_workspaces : List AuditEvent
two_workspaces =
    event "t2" "session.stop"
    ∷ event "t1" "session.create"
    ∷ record (event "t1" "session.create") { target = "w2" }
    ∷ []

abbrev since_checkpoint : List AuditEvent
since_checkpoint =
    event "t3" "session.start" ∷ record (event "t3" "session.create") { target = "w3" } ∷ []

abbrev record_w1 : WorkspaceDto
record_w1 = record {
  id = "w1";
  owner_id = "owner";
  state = "running";
  resources = record { cpu_units = 1024; memory_mib = 2048; volume_gib = 10 };
}

abbrev whole_ledger : List AuditEvent
whole_ledger = two_workspaces ++ since_checkpoint

abbrev record_w3 : WorkspaceDto
record_w3 = record record_w1 { id = "w3" }

-- The text of an instant does not matter here.
abbrev iso : ℕ → String
iso ms = "now"

abbrev checkpoint : Instant
checkpoint = record { text = "t25"; ms = 50 }

abbrev rank_before : String → String → Bool
rank_before a b = ltb (rank a) (rank b)

rollup_is_full_scan_example :
    (rollup_sessions dollars parse
        (rollup dollars parse rank_before two_workspaces (record_w1 ∷ []) checkpoint)
        (group_sessions since_checkpoint)
        (record_w1 ∷ record_w3 ∷ [])
        rates
        120
      ≡ price_sessions dollars rank_le parse iso
          (inputs_of dollars rank_le (group_sessions whole_ledger) (record_w1 ∷ record_w3 ∷ []) (
            report_ids dollars rank_le parse iso rank_before two_workspaces since_checkpoint
              (record_w1 ∷ [])
              checkpoint))
          rates
          120
          none)
    × (rollup_issues dollars parse
          (rollup dollars parse rank_before two_workspaces (record_w1 ∷ []) checkpoint)
          (group_sessions since_checkpoint)
          (record_w1 ∷ record_w3 ∷ [])
        ≡ issues_of dollars (group_sessions whole_ledger) (record_w1 ∷ record_w3 ∷ []) (
            report_ids dollars rank_le parse iso rank_before two_workspaces since_checkpoint
              (record_w1 ∷ [])
              checkpoint))
unfolding group_sessions is_session rollup
rollup_is_full_scan_example =
    rollup_is_full_scan dollars rank_le parse iso rank_before two_workspaces since_checkpoint
      whole_ledger (record_w1 ∷ []) (record_w1 ∷ record_w3 ∷ []) rates checkpoint 120 (omega arith)
      refl refl ((refl, refl), ((refl, refl), tt)) ((λ h. cc), ((λ _. refl), tt))

report_ids_runs :
    report_ids dollars rank_le parse iso rank_before two_workspaces since_checkpoint
      (record_w1 ∷ [])
      checkpoint
    ≡ "w1" ∷ "w2" ∷ "w3" ∷ []
unfolding group_sessions is_session rollup
report_ids_runs = refl

abbrev row : Instant → CostRollupRecord dollars
row at = unpriced "w2" "owner" at "t1" no_resources

abbrev later_checkpoint : Instant
later_checkpoint = record { text = "t3"; ms = 90 }

abbrev last_checkpoint : Instant
last_checkpoint = record { text = "t4"; ms = 100 }

mixed_rows_are_stale :
    rollup_if_stale parse dollars 60 120 (row last_checkpoint ∷ row later_checkpoint ∷ [])
    ≡ some true
unfolding rollup_if_stale
mixed_rows_are_stale = refl

unreadable_checkpoint_throws : rollup_if_stale parse dollars 60 120 (row checkpoint ∷ []) ≡ none
unfolding rollup_if_stale
unreadable_checkpoint_throws = refl

rollup_if_stale_iff_example :
    (rollup_if_stale parse dollars 60 120 (row later_checkpoint ∷ row later_checkpoint ∷ [])
      ≡ some false)
    ↔ IsFresh parse 60 120 ("t3" ∷ "t3" ∷ [])
rollup_if_stale_iff_example =
    rollup_if_stale_iff parse dollars 60 120 (row later_checkpoint ∷ row later_checkpoint ∷ [])
