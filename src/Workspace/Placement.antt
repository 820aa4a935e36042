-- ===== src/Workspace/Placement.antt =====
-- The wait for capacity of packages/core/src/domain/workspace.ts: when the next launch is due, and
-- how often a launch may be refused.
use Prim.Native.Nat.{◌-◌}
use native.Mathlib.Nat.{pow-le-pow_right, min-eq_right}
use native.Mathlib.Decide.{dec_lt}
use ecs_dev_desktop.Common.{
  ap, ◌∙◌, ℕ, zero, suc, ◌+◌, ◌*◌, ◌^◌, ◌≤◌, ◌<◌, ◌≡◌, refl, false, none, some, List, [], ◌∷◌,
  length, leb, if◌then◌else◌, or_else, arith,
}
use ecs_dev_desktop.Result.{Result, ok, err, is_ok, and_then}
use ecs_dev_desktop.Errors.{Message, DomainError}
use ecs_dev_desktop.States.{IsoTimestamp, provisioning}
use ecs_dev_desktop.Workspace.{Workspace}
use ecs_dev_desktop.Workspace.Launch.{
  placement_retry_delay_ms, defer_placement, placement_due, max_placement_attempts,
}

-- `DEFAULT_PROVISIONING_TIMEOUT_MS` of packages/core/src/domain/constants.ts
abbrev pub default_provisioning_timeout_ms : ℕ
default_provisioning_timeout_ms = 10 * 60 * 1000

eight_le_pow : (k : ℕ) → 3 ≤ k → 8 ≤ 2 ^ k
eight_le_pow k h = pow-le-pow_right {n = 2} (omega arith) h

-- From the fourth refusal on the delay is the cap.
delay_capped : (n : ℕ) → 4 ≤ n → placement_retry_delay_ms n ≡ 120000
unfolding placement_retry_delay_ms
delay_capped n h = min-eq_right (omega (arith, eight_le_pow (n - 1) (omega arith)))

-- The n-th refusal is followed by a wait of 15 s, 30 s, 60 s and then always 120 s, shorter than the
-- time after which a provisioning record counts as stuck.
pub delay_schedule :
    (n : ℕ)
    → (placement_retry_delay_ms (suc n) ≡ (if leb n 2 then 15000 * 2 ^ n else 120000))
      × (placement_retry_delay_ms (suc n) < default_provisioning_timeout_ms)
unfolding placement_retry_delay_ms
delay_schedule zero = (refl, omega arith)
delay_schedule (suc zero) = (refl, omega arith)
delay_schedule (suc (suc zero)) = (refl, omega arith)
delay_schedule (suc (suc (suc n))) =
    let capped = delay_capped (suc (suc (suc (suc n)))) (omega arith) in
    (ground (arith, capped), omega (arith, capped))

-- An accepted deferral stays provisioning with no task, counts the refusal, and is due exactly from
-- the end of the wait for that count on.
pub defer_placement-due :
    (ws w : Workspace) (reason : Message) (at now : IsoTimestamp)
    → defer_placement ws reason at ≡ ok w
    → (w.state ≡ provisioning)
      × (w.task_id ≡ none)
      × (w.placement_attempts ≡ some (or_else ws.placement_attempts 0 + 1))
      × (placement_due w now
          ≡ leb (at + placement_retry_delay_ms (or_else ws.placement_attempts 0 + 1)) now)
unfolding defer_placement placement_due
defer_placement-due ws w reason at now h = ground arith

-- Refused launches, one after another.
unfoldable pub defer_all : Workspace → List (Message × IsoTimestamp) → Result Workspace DomainError
defer_all ws [] = ok ws
defer_all ws ((reason, at) ∷ rest) = and_then (defer_placement ws reason at) (λ w. defer_all w rest)

abbrev Waits : Workspace → ℕ → Type 0
Waits ws k = (ws.state ≡ provisioning) × (ws.task_id ≡ none) × (or_else ws.placement_attempts 0 ≡ k)

-- The record after one more refusal.
abbrev deferred : Workspace → Message → IsoTimestamp → Workspace
deferred ws reason at =
    let attempts = or_else ws.placement_attempts 0 + 1 in
    record ws {
      last_activity = at;
      placement_reason = some reason;
      placement_attempts = some attempts;
      placement_retry_at = some (at + placement_retry_delay_ms attempts);
    }

module _ (ws : Workspace) (reason : Message) (at : IsoTimestamp) (k : ℕ) (v : Waits ws k) where
  defer_placement-accepted : k < 8 → defer_placement ws reason at ≡ ok (deferred ws reason at)
  unfolding defer_placement
  defer_placement-accepted h = ground arith

  defer_placement-spent : 8 ≤ k → is_ok (defer_placement ws reason at) ≡ false
  unfolding defer_placement
  defer_placement-spent h = ground arith

refused_stays :
    (r : Result Workspace DomainError) (f : Workspace → Result Workspace DomainError)
    → is_ok r ≡ false
    → is_ok (and_then r f) ≡ false
refused_stays (ok w) f e = cc
refused_stays (err x) f e = refl

overspent : (k n : ℕ) → 8 ≤ k → false ≡ leb (k + suc n) 8
overspent k n h = ground arith

defer_all-budget :
    (ws : Workspace) (rs : List (Message × IsoTimestamp)) (k : ℕ)
    → Waits ws k
    → k ≤ 8
    → is_ok (defer_all ws rs) ≡ leb (k + length rs) 8
unfolding defer_all
defer_all-budget ws [] k v h = ground arith
defer_all-budget ws ((reason, at) ∷ rest) k v h = elim (dec_lt k 8) [
  | yes p ↦ rw (defer_placement-accepted ws reason at k v p) (
      defer_all-budget (deferred ws reason at) rest (k + 1) (v.0, v.1, ground arith) (omega arith)
      ∙ ap (λ n. leb n 8) (omega arith))
  | no p ↦
      refused_stays (defer_placement ws reason at) (λ w. defer_all w rest)
        (defer_placement-spent ws reason at k v (omega arith))
      ∙ overspent k (length rest) (omega arith)
]

-- A launch that has not been refused yet can be refused exactly eight times and go on waiting: a
-- series of refusals is accepted as a whole if and only if it has at most eight, so a launch is tried
-- nine times before it fails.
pub placement_budget :
    (ws : Workspace) (rs : List (Message × IsoTimestamp))
    → ws.state ≡ provisioning
    → ws.task_id ≡ none
    → ws.placement_attempts ≡ none
    → is_ok (defer_all ws rs) ≡ leb (length rs) max_placement_attempts
placement_budget ws rs p t a =
    defer_all-budget ws rs 0 (p, t, ground arith) (omega arith) ∙ ap (λ n. leb n 8) (omega arith)
