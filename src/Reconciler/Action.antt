-- ===== src/Reconciler/Action.antt =====
-- services/reconciler/src/index.ts: awaited calls as functions of a world, and the loops over them.
use ecs_dev_desktop.Common.{String, List, [], ◌∷◌}

-- What an awaited call comes to: a value, or the message of an exception.
pub data Outcome (A : Type 0) : Type 0 where
  returned : A → Outcome A
  thrown : String → Outcome A

abbrev pub Async : Type 0 → Type 0 → Type 0
Async W A = W → Outcome A × W

module _ {W A : Type 0} where
  abbrev pub pure : A → Async W A
  pure a w = (returned a, w)

  -- The outcome of `try { await m }`, which does not throw.
  abbrev pub attempted : Async W A → Async W (Outcome A)
  attempted m w = let (o, w') = m w in (returned o, w')

module _ {W A B : Type 0} where
  abbrev pub continue : Outcome A → (A → Async W B) → Async W B
  continue (returned a) f w = f a w
  continue (thrown m) f w = (thrown m, w)

  infixl 5 ◌>>=◌
  unfoldable pub ◌>>=◌ : Async W A → (A → Async W B) → Async W B
  ◌>>=◌ m f w = let (o, w') = m w in continue o f w'

-- `for (const x of xs) try { ... } catch { ... }`: what each round comes to is counted.
module _ {W A R C : Type 0} (op : A → Async W R) (count : Outcome R → C → C) where
  unfoldable pub for_each : List A → C → Async W C
  for_each [] c w = (returned c, w)
  for_each (x ∷ xs) c w = let (o, w') = op x w in for_each xs (count o c) w'
