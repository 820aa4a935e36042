-- ===== src/Scale/Loop.antt =====
-- The idle sweep and the wake listener against one desired count:
-- packages/core/src/system/control-plane-scale.ts.
use ecs_dev_desktop.Common.{ℕ, ◌+◌, ◌≤◌, ◌<◌, ◌≡◌, refl, ◌↔◌, Option, none, some, arith}
use ecs_dev_desktop.Scale.{
  ParsedInstant, ControlPlaneScaleDecision, hold, scale_to_zero, wake, decide_control_plane_idle,
  decide_control_plane_wake,
}

-- The desired count once a decision is carried out.
abbrev pub scaled : ℕ → ControlPlaneScaleDecision → ℕ
scaled n (hold r) = n
scaled n (scale_to_zero r) = 0
scaled n (wake to r) = to

abbrev pub after_idle : ℕ → Option ParsedInstant → ParsedInstant → ℕ → ℕ
after_idle n last now threshold = scaled n (
    decide_control_plane_idle (record {
      current_desired = n;
      last_activity_at = last;
      now = now;
      idle_threshold_ms = threshold;
    }))

abbrev pub after_wake : ℕ → ℕ → ℕ
after_wake n active = scaled n (decide_control_plane_wake n active)

-- The idle sweep scales a running service to zero exactly when an activity is recorded, both instants
-- can be read, and the activity is at least the threshold old.
pub idle_scales_iff :
    (n : ℕ) (last : Option ParsedInstant) (now : ParsedInstant) (threshold : ℕ)
    → 0 < n
    → (after_idle n last now threshold ≡ 0)
      ↔ ((a : ℕ) × (b : ℕ) × (last ≡ some (some a)) × (now ≡ some b) × (a + threshold ≤ b))
unfolding decide_control_plane_idle
idle_scales_iff n none now threshold h =
    ((λ e. absurd (ground arith)), (λ w. absurd (ground arith)))
idle_scales_iff n (some none) now threshold h =
    ((λ e. absurd (ground arith)), (λ w. absurd (ground arith)))
idle_scales_iff n (some (some a)) none threshold h =
    ((λ e. absurd (ground arith)), (λ w. absurd (ground arith)))
idle_scales_iff n (some (some a)) (some b) threshold h =
    ((λ e. (a, b, refl, refl, ground arith)), (λ w. ground arith))

-- A wake reaches the active count or keeps a larger one, never lowers the count, and a second wake
-- changes nothing.
pub wake_converges :
    (n active : ℕ)
    → (active ≤ after_wake n active)
      × (n ≤ after_wake n active)
      × (after_wake (after_wake n active) active ≡ after_wake n active)
unfolding decide_control_plane_wake
wake_converges n active = (ground arith, ground arith, ground arith)

-- A service that was woken with its activity stamped is not scaled down by any sweep before the
-- threshold has passed since the stamp, nor by a sweep that reads no stamp.
pub wake_survives_idle :
    (n active stamp now threshold : ℕ)
    → now < stamp + threshold
    → (after_idle (after_wake n active) (some (some stamp)) (some now) threshold
        ≡ after_wake n active)
      × (after_idle (after_wake n active) none (some now) threshold ≡ after_wake n active)
unfolding decide_control_plane_idle decide_control_plane_wake
wake_survives_idle n active stamp now threshold h = (ground arith, ground arith)
