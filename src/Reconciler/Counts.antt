-- ===== src/Reconciler/Counts.antt =====
-- services/reconciler/src/index.ts: the numbers in the result of a tick.
use ecs_dev_desktop.Common.{ℕ, ◌+◌, ◌≤◌, ◌≡◌, Bool, true, false, List, [], ◌∷◌, length, arith}
use ecs_dev_desktop.Result.{Result, ok, err}
use ecs_dev_desktop.Errors.{DomainError}
use ecs_dev_desktop.Reconciler.Action.{
  Outcome, returned, thrown, Async, pure, continue, for_each, ◌>>=◌,
}
use ecs_dev_desktop.Reconciler.Sweeps.{SweepResult, count_result, count_loss}
use ecs_dev_desktop.Reconciler.Reapers.{ReapResult, count_reap}

-- How many records a sweep has called the service for.
abbrev pub attempts : SweepResult → ℕ
attempts r = r.acted + r.skipped + r.failed

abbrev pub Holds : {A : Type 0} → (A → Type 0) → Outcome A → Type 0
Holds P (returned a) = P a
Holds P (thrown m) = Unit

-- Whatever the world, an action that returns gives a value with a property.
pub record Gives {W A : Type 0} (P : A → Type 0) (m : Async W A) : Type 0 where
  pub gives : (w : W) → Holds P (m w).0

module _ {W : Type 0} where
  bind-Holds :
      {A B : Type 0} (P : A → Type 0) (Q : B → Type 0) (m : Async W A) (f : A → Async W B)
      → Gives P m
      → ((a : A) → P a → Gives Q (f a))
      → (w : W) → Holds Q ((m >>= f) w).0
  unfolding ◌>>=◌
  bind-Holds {A} P Q m f h k w = go (m w).0 (m w).1 (h.gives w)
    where
      go : (o : Outcome A) (s : W) → Holds P o → Holds Q (continue o f s).0
      go (returned a) s p = (k a p).gives s
      go (thrown x) s p = tt

  pub bind-Gives :
      {A B : Type 0} {Q : B → Type 0} {m : Async W A} {f : A → Async W B} (P : A → Type 0)
      → Gives P m
      → ((a : A) → P a → Gives Q (f a))
      → Gives Q (m >>= f)
  bind-Gives {Q} {m} {f} P h k = record { gives = bind-Holds P Q m f h k }

  pub any-Gives : {A : Type 0} (m : Async W A) → Gives (λ a. Unit) m
  any-Gives {A} m = record { gives = λ w. of_any (m w).0 }
    where
      of_any : (o : Outcome A) → Holds (λ a. Unit) o
      of_any (returned a) = tt
      of_any (thrown x) = tt

  pub pure-Gives : {A : Type 0} (P : A → Type 0) (a : A) → P a → Gives {W = W} P (pure a)
  pure-Gives P a p = record { gives = λ w. p }

  pub listed-Gives :
      {A B : Type 0} {Q : B → Type 0} {f : A → Async W B} (m : Async W A)
      → ((a : A) → Gives Q (f a))
      → Gives Q (m >>= f)
  listed-Gives m h = bind-Gives (λ a. Unit) (any-Gives m) (λ a u. h a)

  pub reading-Gives :
      {A : Type 0} {P : A → Type 0} {f : W → Async W A}
      → ((w : W) → Gives P (f w))
      → Gives P (λ w. f w w)
  reading-Gives h = record { gives = λ w. (h w).gives w }

  -- The rule of a loop: a property of the rounds done and of the count so far.
  loop-Holds :
      {A R C : Type 0} (op : A → Async W R) (count : Outcome R → C → C) (I : ℕ → C → Type 0)
      → ((k : ℕ) (o : Outcome R) (c : C) → I k c → I (k + 1) (count o c))
      → (k j : ℕ) (xs : List A) (c : C) → k + length xs ≡ j
      → I k c
      → (w : W) → Holds (I j) (for_each op count xs c w).0
  unfolding for_each
  loop-Holds op count I step k j [] c e i w = let e' : k ≡ j = omega arith in rw (← e') i
  loop-Holds op count I step k j (x ∷ xs) c e i w =
      let (o, s) = op x w in
      loop-Holds op count I step (k + 1) j xs (count o c) (omega arith) (step k o c i) s

  pub for_each-Gives :
      {A R C : Type 0} (op : A → Async W R) (count : Outcome R → C → C) (I : ℕ → C → Type 0)
      → ((k : ℕ) (o : Outcome R) (c : C) → I k c → I (k + 1) (count o c))
      → (xs : List A) (c : C) → I 0 c
      → Gives (I (length xs)) (for_each op count xs c)
  for_each-Gives op count I step xs c i = record {
    gives = loop-Holds op count I step 0 (length xs) xs c (omega arith) i;
  }

-- After some rounds of a sweep over some records.
abbrev pub Counted : ℕ → ℕ → SweepResult → Type 0
Counted n k r = (r.scanned ≡ n) × (attempts r ≡ k)

pub result-Counted :
    (n k : ℕ) (o : Outcome (Result Unit DomainError)) (r : SweepResult)
    → Counted n k r
    → Counted n (k + 1) (count_result o r)
result-Counted n k (returned (ok u)) r h = let e = h.1 in (h.0, omega arith)
result-Counted n k (returned (err x)) r h = let e = h.1 in (h.0, omega arith)
result-Counted n k (thrown m) r h = let e = h.1 in (h.0, omega arith)

abbrev pub CountedAtMost : ℕ → ℕ → SweepResult → Type 0
CountedAtMost n k r = (r.scanned ≡ n) × (attempts r ≤ k)

pub loss-Counted :
    (n k : ℕ) (o : Outcome (Result Bool DomainError)) (r : SweepResult)
    → CountedAtMost n k r
    → CountedAtMost n (k + 1) (count_loss o r)
loss-Counted n k (returned (ok true)) r h = let e = h.1 in (h.0, omega arith)
loss-Counted n k (returned (ok false)) r h = let e = h.1 in (h.0, omega arith)
loss-Counted n k (returned (err x)) r h = let e = h.1 in (h.0, omega arith)
loss-Counted n k (thrown m) r h = let e = h.1 in (h.0, omega arith)

abbrev pub ReapCounted : ℕ → ℕ → ReapResult → Type 0
ReapCounted n k r = (r.scanned ≡ n) × (r.reaped + r.failed ≡ k)

pub reap-Counted :
    (n k : ℕ) (o : Outcome Unit) (r : ReapResult)
    → ReapCounted n k r
    → ReapCounted n (k + 1) (count_reap o r)
reap-Counted n k (returned u) r h = let e = h.1 in (h.0, omega arith)
reap-Counted n k (thrown m) r h = let e = h.1 in (h.0, omega arith)
