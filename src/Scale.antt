-- ===== src/Scale.antt =====
-- packages/core/src/system/control-plane-scale.ts. The timestamps of this component are read by
-- `Date.parse`, whose NaN is the `none` of a parsed instant.
mod Tests
pub mod Loop
use ecs_dev_desktop.Common.{
  ℕ, ◌+◌, ◌-◌, Option, none, some, Bool, true, false, leb, if◌then◌else◌, ◌==◌, nat_eq,
}

abbrev pub ParsedInstant : Type 0
ParsedInstant = Option ℕ

pub data Reason : Type 0 where
  already_zero no_activity unparseable not_positive : Reason
  idle_for last_active : ℕ → Reason
  already_at : ℕ → Reason
  waking : ℕ → ℕ → Reason

pub data ControlPlaneScaleDecision : Type 0 where
  hold : Reason → ControlPlaneScaleDecision
  scale_to_zero : Reason → ControlPlaneScaleDecision
  wake : ℕ → Reason → ControlPlaneScaleDecision

pub record ControlPlaneIdleInput : Type 0 where
  pub current_desired : ℕ
  pub last_activity_at : Option ParsedInstant
  pub now : ParsedInstant
  pub idle_threshold_ms : ℕ

-- The decision once both instants are numbers. A negative age is less than every threshold, and is
-- shown as 0.
abbrev idle_decision : ℕ → ℕ → ℕ → ControlPlaneScaleDecision
idle_decision last now threshold =
    if leb (last + threshold) now
    then scale_to_zero (idle_for (now - last))
    else hold (last_active (now - last))

abbrev recorded_decision : Option ParsedInstant → ParsedInstant → ℕ → ControlPlaneScaleDecision
recorded_decision none now threshold = hold no_activity
recorded_decision (some (some last)) (some now) threshold = idle_decision last now threshold
recorded_decision (some _) _ threshold = hold unparseable

unfoldable pub decide_control_plane_idle : ControlPlaneIdleInput → ControlPlaneScaleDecision
decide_control_plane_idle input =
    if leb input.current_desired 0
    then hold already_zero
    else recorded_decision input.last_activity_at input.now input.idle_threshold_ms

unfoldable pub decide_control_plane_wake : ℕ → ℕ → ControlPlaneScaleDecision
decide_control_plane_wake current_desired active_desired =
    if leb active_desired 0
    then hold not_positive
    else if leb active_desired current_desired
    then hold (already_at current_desired)
    else wake active_desired (waking current_desired active_desired)
