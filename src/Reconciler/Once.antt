-- ===== src/Reconciler/Once.antt =====
-- services/reconciler/src/index.ts: a tick that reads the references of the fleet once, between its sweeps
-- and its reapers.
use ecs_dev_desktop.Common.{
  ℕ, ◌≤◌, ◌≡◌, ◌⊎◌, inl, inr, refl, sym, ap, ◌∙◌, List, [], ◌∷◌, ◌++◌, arith,
}
use ecs_dev_desktop.Reconciler.Action.{Outcome, returned, thrown, Async, continue, ◌>>=◌}
use ecs_dev_desktop.Reconciler.Trace.{Call, Logged, noting, fleet_referenced}
use ecs_dev_desktop.Reconciler.Stages.{Runs, Runs-append, Stages, append_assoc, append_nil}

-- The calls go from a stage to the ninth; then either there are no more, or one read of the references
-- and calls of the stages eleven to sixteen.
abbrev pub IsTick : ℕ → List Call → Type 0
IsTick lo calls =
    (before : List Call) × Runs lo before 9
    × ((calls ≡ before)
        ⊎ ((after : List Call) × (calls ≡ before ++ fleet_referenced ∷ after) × Runs 11 after 16))

abbrev pub AddsTick : {W A : Type 0} → ℕ → List Call → Outcome A × Logged W → Type 0
AddsTick lo log r = (seg : List Call) × (r.1.0 ≡ log ++ seg) × IsTick lo seg

pub record Ticks {W A : Type 0} (lo : ℕ) (m : Async (Logged W) A) : Type 0 where
  pub adds : (log : List Call) (w : W) → AddsTick lo log (m (log, w))

sweep-IsTick :
    (k j : ℕ) (seg more : List Call) → k ≤ j → Runs k seg k → IsTick j more → IsTick k (seg ++ more)
sweep-IsTick k j seg more le r (before, runs, rest) = (
  seg ++ before,
  Runs-append k k 9 seg before r (Runs-append k j 9 [] before le runs),
  elim rest [
    | inl q ↦ inl (ap (λ l. seg ++ l) q)
    | inr t ↦
        inr (
          t.0,
          ap (λ l. seg ++ l) t.1 ∙ sym (append_assoc seg before (fleet_referenced ∷ t.0)),
          t.2,
        )
  ],
)

module _ {W A B : Type 0} {m : Async (Logged W) A} {f : A → Async (Logged W) B} where
  -- A sweep of one stage, and then the rest of the tick.
  pub sweep-Ticks :
      (k j : ℕ) → k ≤ j → k ≤ 9 → Stages k k m → ((a : A) → Ticks j (f a)) → Ticks k (m >>= f)
  unfolding ◌>>=◌
  sweep-Ticks k j le le' h g = record {
    adds = λ log w. let (seg, e, r) = h.adds log w in go log (m (log, w)).0 (m (log, w)).1 seg e r;
  }
    where
      go :
          (log : List Call) (o : Outcome A) (s : Logged W) (seg : List Call)
          → s.0 ≡ log ++ seg
          → Runs k seg k
          → AddsTick {A = B} k log (continue o f s)
      go log (returned a) s seg e r =
          let (more, e', t) = (g a).adds s.0 s.1 in
          (
            seg ++ more,
            e' ∙ ap (λ l. l ++ more) e ∙ append_assoc log seg more,
            sweep-IsTick k j seg more le r t,
          )
      go log (thrown x) s seg e r = (
        seg ++ [],
        e ∙ ap (◌++◌ log) (append_nil seg),
        (seg ++ [], Runs-append k k 9 seg [] r le', inl refl),
      )

module _ {W A B : Type 0} (m : Async W A) {f : A → Async (Logged W) B} where
  -- The read of the references, and then the reapers.
  pub read-Ticks :
      (k : ℕ) → k ≤ 9 → ((a : A) → Stages 11 16 (f a)) → Ticks k (noting fleet_referenced m >>= f)
  unfolding ◌>>=◌ noting
  read-Ticks k le g = record { adds = λ log w. go log (m w).0 (m w).1 }
    where
      go :
          (log : List Call) (o : Outcome A) (w : W)
          → AddsTick {A = B} k log (continue o f (log ++ fleet_referenced ∷ [], w))
      go log (returned a) w =
          let (after, e, r) = (g a).adds (log ++ fleet_referenced ∷ []) w in
          (
            fleet_referenced ∷ after,
            e ∙ append_assoc log (fleet_referenced ∷ []) after,
            ([], le, inr (after, refl, r)),
          )
      go log (thrown x) w = (fleet_referenced ∷ [], refl, ([], le, inr ([], refl, omega arith)))
