-- ===== src/Result.antt =====
-- packages/core/src/result.ts and packages/core/src/domain/errors.ts: failures as values.
use ecs_dev_desktop.Common.{◌≡◌, ◌⊎◌, inl, inr, refl, Bool, true, false, not}

pub data Result {ℓ} (T E : Type ℓ) : Type ℓ where
  ok : T → Result T E
  err : E → Result T E

module _ {ℓ} {T E : Type ℓ} where
  abbrev pub is_ok : Result T E → Bool
  is_ok (ok t) = true
  is_ok (err e) = false

  abbrev pub is_err : Result T E → Bool
  is_err r = not (is_ok r)

module _ {ℓ} {T U E : Type ℓ} where
  abbrev pub map : Result T E → (T → U) → Result U E
  map (ok t) f = ok (f t)
  map (err e) f = err e

  abbrev pub and_then : Result T E → (T → Result U E) → Result U E
  and_then (ok t) f = f t
  and_then (err e) f = err e

module _ {ℓ} {T E F : Type ℓ} where
  abbrev pub map_err : Result T E → (E → F) → Result T F
  map_err (ok t) f = ok t
  map_err (err e) f = err (f e)

pub Result-cases {ℓ} :
    {T E : Type ℓ} (r : Result T E) → ((t : T) × (r ≡ ok t)) ⊎ ((e : E) × (r ≡ err e))
Result-cases (ok t) = inl (t, refl)
Result-cases (err e) = inr (e, refl)
