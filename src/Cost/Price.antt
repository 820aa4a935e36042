-- ===== src/Cost/Price.antt =====
-- packages/core/src/observability/cost.ts: prices, and the report of a fleet. The arithmetic of
-- JavaScript's numbers on money is a parameter, of which no law is assumed.
use ecs_dev_desktop.Common.{
  ℕ, ◌+◌, ◌*◌, String, Bool, true, false, not, ◌&&◌, Option, none, some, List, [], ◌∷◌, ◌==◌,
  string_eq, or_else, if◌then◌else◌, sort_with, ltb, nat_eq,
}
use ecs_dev_desktop.Cost.{
  AuditEvent, Interval, BillingIntervals, total_ms, ms_per_hour, derive_billing_intervals,
  clip_intervals,
}

pub record Floats : Type 1 where
  pub F : Type 0
  pub of_nat : ℕ → F
  pub plus : F → F → F
  pub times : F → F → F
  pub divide : F → F → F
  pub exceeds : F → F → Bool
  pub is_finite_non_negative : F → Bool
  pub is_finite_positive : F → Bool

abbrev pub hours_per_month : ℕ
hours_per_month = 730

abbrev pub ms_per_month : ℕ
ms_per_month = hours_per_month * ms_per_hour

module _ (n : Floats) where
  pub record Pricing : Type 0 where
    pub fargate_vcpu_hour_usd : n.F
    pub fargate_gb_hour_usd : n.F
    pub ebs_gb_month_usd : n.F
    pub snapshot_gb_month_usd : n.F

  pub record WorkspaceSizing : Type 0 where
    pub vcpu : n.F
    pub memory_gib : n.F
    pub volume_gib : n.F

  pub record CostBreakdown : Type 0 where
    pub compute_usd : n.F
    pub volume_usd : n.F
    pub snapshot_usd : n.F
    pub total_usd : n.F
    pub running_ms : ℕ
    pub stopped_ms : ℕ
    pub teardown_ms : ℕ

  abbrev pub assert_pricing : Pricing → Bool
  assert_pricing p =
      n.is_finite_non_negative p.fargate_vcpu_hour_usd
      && n.is_finite_non_negative p.fargate_gb_hour_usd
      && n.is_finite_non_negative p.ebs_gb_month_usd
      && n.is_finite_non_negative p.snapshot_gb_month_usd

  abbrev pub assert_sizing : WorkspaceSizing → Bool
  assert_sizing s =
      n.is_finite_positive s.vcpu
      && n.is_finite_positive s.memory_gib
      && n.is_finite_positive s.volume_gib

  -- A number of milliseconds is finite and not negative by its type.
  abbrev pub assert_breakdown : CostBreakdown → Bool
  assert_breakdown c =
      n.is_finite_non_negative c.compute_usd
      && n.is_finite_non_negative c.volume_usd
      && n.is_finite_non_negative c.snapshot_usd
      && n.is_finite_non_negative c.total_usd

  abbrev pub compute_rate : WorkspaceSizing → Pricing → n.F
  compute_rate s p =
      n.plus (n.times s.vcpu p.fargate_vcpu_hour_usd) (n.times s.memory_gib p.fargate_gb_hour_usd)

  abbrev pub storage_usd : ℕ → n.F → n.F → n.F
  storage_usd ms gib rate =
      n.times (n.times (n.divide (n.of_nat ms) (n.of_nat ms_per_month)) gib) rate

  -- `none` where the source throws
  unfoldable pub price_durations : ℕ → ℕ → ℕ → Pricing → WorkspaceSizing → Option CostBreakdown
  price_durations running_ms stopped_ms teardown_ms pricing sizing =
      let compute_usd =
        n.times (n.divide (n.of_nat running_ms) (n.of_nat ms_per_hour))
          (compute_rate sizing pricing) in
      let volume_usd =
        storage_usd (running_ms + teardown_ms) sizing.volume_gib pricing.ebs_gb_month_usd in
      let snapshot_usd =
        storage_usd (stopped_ms + teardown_ms) sizing.volume_gib pricing.snapshot_gb_month_usd in
      let cost : CostBreakdown = record {
        compute_usd = compute_usd;
        volume_usd = volume_usd;
        snapshot_usd = snapshot_usd;
        total_usd = n.plus (n.plus compute_usd volume_usd) snapshot_usd;
        running_ms = running_ms;
        stopped_ms = stopped_ms;
        teardown_ms = teardown_ms;
      } in
      if assert_pricing pricing && assert_sizing sizing && assert_breakdown cost
      then some cost
      else none

  abbrev pub price_intervals : BillingIntervals → Pricing → WorkspaceSizing → Option CostBreakdown
  price_intervals i pricing sizing =
      price_durations (total_ms i.running) (total_ms i.stopped) (total_ms i.teardown) pricing sizing

  abbrev pub add_breakdowns : CostBreakdown → CostBreakdown → CostBreakdown
  add_breakdowns a b = record {
    compute_usd = n.plus a.compute_usd b.compute_usd;
    volume_usd = n.plus a.volume_usd b.volume_usd;
    snapshot_usd = n.plus a.snapshot_usd b.snapshot_usd;
    total_usd = n.plus a.total_usd b.total_usd;
    running_ms = a.running_ms + b.running_ms;
    stopped_ms = a.stopped_ms + b.stopped_ms;
    teardown_ms = a.teardown_ms + b.teardown_ms;
  }

  abbrev pub zero_cost : CostBreakdown
  zero_cost = record {
    compute_usd = n.of_nat 0;
    volume_usd = n.of_nat 0;
    snapshot_usd = n.of_nat 0;
    total_usd = n.of_nat 0;
    running_ms = 0;
    stopped_ms = 0;
    teardown_ms = 0;
  }

  pub record SessionCost : Type 0 where
    pub workspace_id : String
    pub owner : String
    pub sizing : WorkspaceSizing
    pub state : String
    pub is_terminated : Bool
    pub cost : CostBreakdown

  pub record UserCost : Type 0 where
    pub owner : String
    pub sessions : ℕ
    pub cost : CostBreakdown

  pub record CostIssue : Type 0 where
    pub workspace_id : String
    pub reason : String

  pub record FleetCostReport : Type 0 where
    pub generated_at : String
    pub window_start : String
    pub pricing : Pricing
    pub total : CostBreakdown
    pub by_user : List UserCost
    pub by_session : List SessionCost
    pub unpriced : List CostIssue

  -- The entry that `byUserMap.set(...)` makes of no entry, and of one that stands in the map
  abbrev pub opened : SessionCost → UserCost
  opened s = record { owner = s.owner; sessions = 0 + 1; cost = add_breakdowns zero_cost s.cost }

  abbrev pub charged : SessionCost → UserCost → UserCost
  charged s u = record u { sessions = u.sessions + 1; cost = add_breakdowns u.cost s.cost }

  abbrev pub charge : SessionCost → List UserCost → List UserCost
  charge s [] = opened s ∷ []
  charge s (u ∷ us) =
      let rest = charge s us in if u.owner == s.owner then charged s u ∷ us else u ∷ rest

  abbrev pub charge_all : List SessionCost → List UserCost → List UserCost
  charge_all [] us = us
  charge_all (s ∷ ss) us = charge_all ss (charge s us)

  abbrev pub sum_costs : List SessionCost → CostBreakdown → CostBreakdown
  sum_costs [] sum = sum
  sum_costs (s ∷ ss) sum = sum_costs ss (add_breakdowns sum s.cost)

  abbrev pub are_valid : List SessionCost → Bool
  are_valid [] = true
  are_valid (s ∷ ss) = assert_breakdown s.cost && assert_sizing s.sizing && are_valid ss

  -- `(a, b) => b.totalUsd - a.totalUsd`
  abbrev pub dearer_first : CostBreakdown → CostBreakdown → Bool
  dearer_first a b = not (n.exceeds b.total_usd a.total_usd)

  -- `a.localeCompare(b) <= 0` of two ids is a parameter.
  module _ (locale_le : String → String → Bool) where
    abbrev pub by_workspace : SessionCost → SessionCost → Bool
    by_workspace a b = locale_le a.workspace_id b.workspace_id

    abbrev pub issue_by_workspace : CostIssue → CostIssue → Bool
    issue_by_workspace a b = locale_le a.workspace_id b.workspace_id

    unfoldable pub aggregate_fleet_cost :
        List SessionCost → Pricing → String → String → List CostIssue → Option FleetCostReport
    aggregate_fleet_cost by_session pricing generated_at window_start unpriced =
        let canonical = sort_with by_workspace by_session in
        let report : FleetCostReport = record {
          generated_at = generated_at;
          window_start = window_start;
          pricing = pricing;
          total = sum_costs canonical zero_cost;
          by_user = sort_with (λ a b. dearer_first a.cost b.cost) (charge_all canonical []);
          by_session = sort_with (λ a b. dearer_first a.cost b.cost) canonical;
          unpriced = sort_with issue_by_workspace unpriced;
        } in
        if are_valid canonical then some report else none

    pub record WorkspaceCostInput : Type 0 where
      pub workspace_id : String
      pub owner : String
      pub sizing : WorkspaceSizing
      pub state : Option String
      pub events : List AuditEvent

    module _ (date_parse : String → Option ℕ) (to_iso_string : ℕ → String) where
      -- An instant with the text that it was read from.
      pub record Moment : Type 0 where
        pub text : String
        pub ms : ℕ

      abbrev pub earlier : String → Option ℕ → Moment → Moment
      earlier at none m = m
      earlier at (some ms) m = if ltb ms m.ms then record { text = at; ms = ms } else m

      abbrev pub earliest_in : List AuditEvent → Moment → Moment
      earliest_in [] m = m
      earliest_in (e ∷ es) m = earliest_in es (earlier e.at (date_parse e.at) m)

      abbrev pub earliest_event : List WorkspaceCostInput → Moment → Moment
      earliest_event [] m = m
      earliest_event (w ∷ ws) m = earliest_event ws (earliest_in w.events m)

      abbrev pub earliest_event_at : List WorkspaceCostInput → Moment → String
      earliest_event_at inputs now = (earliest_event inputs now).text

      abbrev pub windowed : Option Interval → BillingIntervals → BillingIntervals
      windowed none lifetime = lifetime
      windowed (some window) lifetime = clip_intervals lifetime window

      abbrev pub is_omitted : Option Interval → CostBreakdown → Bool
      is_omitted none cost = false
      is_omitted (some window) cost = cost.running_ms + cost.stopped_ms + cost.teardown_ms == 0

      abbrev pub session_cost : WorkspaceCostInput → Bool → CostBreakdown → SessionCost
      session_cost w is_terminated cost = record {
        workspace_id = w.workspace_id;
        owner = w.owner;
        sizing = w.sizing;
        state = or_else w.state (if is_terminated then "terminated" else "unknown");
        is_terminated = is_terminated;
        cost = cost;
      }

      -- One round of the loop: its price, unless pricing throws, before what the loop pushed later.
      abbrev pub push_session :
          WorkspaceCostInput
          → Option Interval
          → Bool
          → Option CostBreakdown
          → Option (List SessionCost)
          → Option (List SessionCost)
      push_session w window is_terminated none rest = none
      push_session w window is_terminated (some cost) none = none
      push_session w window is_terminated (some cost) (some rest) =
          if is_omitted window cost
          then some rest
          else some (session_cost w is_terminated cost ∷ rest)

      abbrev pub price_sessions :
          List WorkspaceCostInput → Pricing → ℕ → Option Interval → Option (List SessionCost)
      price_sessions [] pricing now window = some []
      price_sessions (w ∷ ws) pricing now window =
          let rest = price_sessions ws pricing now window in
          let lifetime = derive_billing_intervals date_parse w.events now in
          push_session w window lifetime.terminated
            (price_intervals (windowed window lifetime) pricing w.sizing) rest

      abbrev pub window_start :
          List WorkspaceCostInput → Moment → Option Interval → Option String → String
      window_start inputs now (some window) ledger_start = to_iso_string window.from_ms
      window_start inputs now none ledger_start =
          or_else ledger_start (earliest_event_at inputs now)

      abbrev pub aggregate_priced :
          Option (List SessionCost)
          → Pricing
          → String
          → String
          → List CostIssue
          → Option FleetCostReport
      aggregate_priced none pricing generated_at start unpriced = none
      aggregate_priced (some by_session) pricing generated_at start unpriced =
          aggregate_fleet_cost by_session pricing generated_at start unpriced

      unfoldable pub compute_fleet_cost :
          List WorkspaceCostInput
          → Pricing
          → Moment
          → Option Interval
          → List CostIssue
          → Option String
          → Option FleetCostReport
      compute_fleet_cost inputs pricing now window unpriced ledger_start =
          aggregate_priced (price_sessions inputs pricing now.ms window) pricing now.text
            (window_start inputs now window ledger_start) unpriced

  pub record ControlPlaneSizing : Type 0 where
    pub vcpu : n.F
    pub memory_gib : n.F
    pub replicas : n.F

  pub record RunRateProjection : Type 0 where
    pub workspaces_usd_per_hour : n.F
    pub control_plane_usd_per_hour : n.F
    pub total_usd_per_hour : n.F
    pub workspaces_usd_per_day : n.F
    pub control_plane_usd_per_day : n.F
    pub total_usd_per_day : n.F

  abbrev pub workspace_hourly_usd : WorkspaceSizing → Pricing → n.F
  workspace_hourly_usd s p =
      n.plus (compute_rate s p)
        (n.divide (n.times s.volume_gib p.ebs_gb_month_usd) (n.of_nat hours_per_month))

  -- The sum over the workspaces, `none` when one of the sizes is refused.
  abbrev pub sum_hourly : List WorkspaceSizing → Pricing → n.F → Option n.F
  sum_hourly [] p sum = some sum
  sum_hourly (s ∷ ss) p sum =
      let rest = sum_hourly ss p (n.plus sum (workspace_hourly_usd s p)) in
      if assert_sizing s then rest else none

  abbrev pub projection : n.F → n.F → RunRateProjection
  projection workspaces control_plane =
      let total = n.plus workspaces control_plane in
      let day = n.of_nat 24 in
      record {
        workspaces_usd_per_hour = workspaces;
        control_plane_usd_per_hour = control_plane;
        total_usd_per_hour = total;
        workspaces_usd_per_day = n.times workspaces day;
        control_plane_usd_per_day = n.times control_plane day;
        total_usd_per_day = n.times total day;
      }

  abbrev pub projected : Option n.F → n.F → Option RunRateProjection
  projected none control_plane = none
  projected (some workspaces) control_plane = some (projection workspaces control_plane)

  unfoldable pub project_run_rate :
      List WorkspaceSizing → ControlPlaneSizing → Pricing → Option RunRateProjection
  project_run_rate workspaces cp pricing =
      if (assert_pricing pricing
        && n.is_finite_positive cp.vcpu
        && n.is_finite_positive cp.memory_gib
        && n.is_finite_non_negative cp.replicas)
      then projected (sum_hourly workspaces pricing (n.of_nat 0)) (
          n.times cp.replicas (
            n.plus (n.times cp.vcpu pricing.fargate_vcpu_hour_usd)
              (n.times cp.memory_gib pricing.fargate_gb_hour_usd)))
      else none
