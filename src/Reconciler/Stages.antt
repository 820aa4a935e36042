-- ===== src/Reconciler/Stages.antt =====
-- services/reconciler/src/index.ts: the stages of a maintenance tick, and rules for actions that keep to them.
use ecs_dev_desktop.Common.{
  ℕ, ◌≤◌, ◌≡◌, refl, ap, ◌∙◌, Option, none, some, List, [], ◌∷◌, ◌++◌, arith,
}
use ecs_dev_desktop.Reconciler.Action.{
  Outcome, returned, thrown, Async, pure, attempted, continue, for_each, ◌>>=◌,
}
use ecs_dev_desktop.Reconciler.Trace.{
  Call, Logged, noting, storage_referenced, tasks_referenced, secrets_referenced, fleet_referenced,
  owner_counts_reconciled, loss_reconciled, snapshotted, provisioning_recovered, deleting_finished,
  error_recovered, snapshot_lost_marked, stopped, stop_finished, tombstones_purged, volume_deleted,
  snapshot_deleted, task_stopped, secret_deleted, definitions_pruned, service_scaled,
}

-- The stage of a tick that a call belongs to; a call that only lists has none. To read a part of the
-- references again is of stage 0, which a tick is past.
unfoldable pub stage : Call → Option ℕ
stage storage_referenced = some 0
stage tasks_referenced = some 0
stage secrets_referenced = some 0
stage (provisioning_recovered _) = some 1
stage (loss_reconciled _) = some 2
stage (snapshot_lost_marked _) = some 3
stage (error_recovered _) = some 4
stage (deleting_finished _) = some 5
stage (stop_finished _ _) = some 6
stage (tombstones_purged _) = some 7
stage (stopped _ _) = some 8
stage (snapshotted _) = some 9
stage fleet_referenced = some 10
stage (task_stopped _) = some 11
stage (secret_deleted _) = some 12
stage (definitions_pruned _) = some 13
stage (volume_deleted _) = some 14
stage (snapshot_deleted _) = some 14
stage owner_counts_reconciled = some 15
stage (service_scaled _ _) = some 16
stage _ = none

-- The calls go through the stages from one to another and never back.
abbrev pub step_to : ℕ → Option ℕ → ℕ
step_to lo none = lo
step_to lo (some k) = k

abbrev pub Runs : ℕ → List Call → ℕ → Type 0
Runs lo [] hi = lo ≤ hi
Runs lo (c ∷ cs) hi = (lo ≤ step_to lo (stage c)) × Runs (step_to lo (stage c)) cs hi

step_to_mono : (a b : ℕ) (o : Option ℕ) → a ≤ b → step_to a o ≤ step_to b o
step_to_mono a b none h = h
step_to_mono a b (some k) h = omega arith

pub Runs-append : (a b c : ℕ) (xs ys : List Call) → Runs a xs b → Runs b ys c → Runs a (xs ++ ys) c
Runs-append a b c [] ys h k = widen a b ys h k
  where
    below : (a b : ℕ) (o : Option ℕ) → a ≤ b → b ≤ step_to b o → a ≤ step_to a o
    below a b none h k = omega arith
    below a b (some j) h k = omega arith

    widen : (a b : ℕ) (zs : List Call) → a ≤ b → Runs b zs c → Runs a zs c
    widen a b [] h k = omega arith
    widen a b (z ∷ zs) h k = (
      below a b (stage z) h k.0,
      widen (step_to a (stage z)) (step_to b (stage z)) zs (step_to_mono a b (stage z) h) k.1,
    )
Runs-append a b c (x ∷ xs) ys h k = (h.0, Runs-append (step_to a (stage x)) b c xs ys h.1 k)

pub append_assoc : (xs ys zs : List Call) → (xs ++ ys) ++ zs ≡ xs ++ (ys ++ zs)
append_assoc [] ys zs = refl
append_assoc (x ∷ xs) ys zs = ap (◌∷◌ x) (append_assoc xs ys zs)

pub append_nil : (xs : List Call) → xs ≡ xs ++ []
append_nil [] = refl
append_nil (x ∷ xs) = ap (◌∷◌ x) (append_nil xs)

-- What an action has added to a log goes through the stages from one to another.
abbrev pub Adds : {W A : Type 0} → ℕ → ℕ → List Call → Outcome A × Logged W → Type 0
Adds lo hi log r = (seg : List Call) × (r.1.0 ≡ log ++ seg) × Runs lo seg hi

pub record Stages {W A : Type 0} (lo hi : ℕ) (m : Async (Logged W) A) : Type 0 where
  pub adds : (log : List Call) (w : W) → Adds lo hi log (m (log, w))

module _ {W : Type 0} where
  pub pure-Stages : {A : Type 0} (lo hi : ℕ) (a : A) → lo ≤ hi → Stages {W = W} lo hi (pure a)
  pure-Stages lo hi a h = record { adds = λ log w. ([], append_nil log, h) }

  noting-Adds :
      {A : Type 0} (k : ℕ) (c : Call) (m : Async W A)
      → Runs k (c ∷ []) k
      → (log : List Call) (w : W) → Adds k k log (noting c m (log, w))
  unfolding noting
  noting-Adds k c m h log w = (c ∷ [], refl, h)

  pub listing-Stages :
      {A : Type 0} (k : ℕ) (c : Call) (m : Async W A) → stage c ≡ none → Stages k k (noting c m)
  listing-Stages k c m e = record { adds = noting-Adds k c m (rw e (omega arith, omega arith)) }

  pub staged-Stages :
      {A : Type 0} (k : ℕ) (c : Call) (m : Async W A) → stage c ≡ some k → Stages k k (noting c m)
  staged-Stages k c m e = record { adds = noting-Adds k c m (rw e (omega arith, omega arith)) }

  pub attempted-Stages :
      {A : Type 0} {m : Async (Logged W) A} (lo hi : ℕ)
      → Stages lo hi m
      → Stages lo hi (attempted m)
  attempted-Stages lo hi h = record { adds = h.adds }

  -- A stage may be read off the world.
  pub reading-Stages :
      {A : Type 0} {f : Logged W → Async (Logged W) A} (lo hi : ℕ)
      → ((s : Logged W) → Stages lo hi (f s))
      → Stages lo hi (λ s. f s s)
  reading-Stages lo hi h = record { adds = λ log w. (h (log, w)).adds log w }

  module _ {A B : Type 0} {m : Async (Logged W) A} {f : A → Async (Logged W) B}
      (lo mid hi : ℕ) where
    pub bind-Stages :
        mid ≤ hi → Stages lo mid m → ((a : A) → Stages mid hi (f a)) → Stages lo hi (m >>= f)
    unfolding ◌>>=◌
    bind-Stages le h k = record {
      adds =
          λ log w. let (seg, e, r) = h.adds log w in go log (m (log, w)).0 (m (log, w)).1 seg e r;
    }
      where
        go :
            (log : List Call) (o : Outcome A) (s : Logged W) (seg : List Call)
            → s.0 ≡ log ++ seg
            → Runs lo seg mid
            → Adds {A = B} lo hi log (continue o f s)
        go log (returned a) s seg e r =
            let (more, e', r') = (k a).adds s.0 s.1 in
            (
              seg ++ more,
              e' ∙ ap (λ l. l ++ more) e ∙ append_assoc log seg more,
              Runs-append lo mid hi seg more r r',
            )
        go log (thrown x) s seg e r =
            (seg ++ [], e ∙ ap (◌++◌ log) (append_nil seg), Runs-append lo mid hi seg [] r le)

  -- Both parts of a sweep are in one stage.
  pub then-Stages :
      {A B : Type 0} {m : Async (Logged W) A} {f : A → Async (Logged W) B} (k : ℕ)
      → Stages k k m
      → ((a : A) → Stages k k (f a))
      → Stages k k (m >>= f)
  then-Stages k h g = bind-Stages k k k (omega arith) h g

  loop-Adds :
      {A R C : Type 0} (op : A → Async (Logged W) R) (count : Outcome R → C → C) (k : ℕ)
      → ((a : A) → Stages k k (op a))
      → (xs : List A) (c : C) (log : List Call) (w : W)
      → Adds k k log (for_each op count xs c (log, w))
  unfolding for_each
  loop-Adds op count k h [] c log w = ([], append_nil log, omega arith)
  loop-Adds op count k h (x ∷ xs) c log w =
      let (seg, e, r) = (h x).adds log w in
      let (o, s) = op x (log, w) in
      let (more, e', r') = loop-Adds op count k h xs (count o c) s.0 s.1 in
      (
        seg ++ more,
        e' ∙ ap (λ l. l ++ more) e ∙ append_assoc log seg more,
        Runs-append k k k seg more r r',
      )

  pub for_each-Stages :
      {A R C : Type 0} (k : ℕ) (op : A → Async (Logged W) R) (count : Outcome R → C → C)
      (xs : List A) (c : C)
      → ((a : A) → Stages k k (op a))
      → Stages k k (for_each op count xs c)
  for_each-Stages k op count xs c h = record { adds = loop-Adds op count k h xs c }

  -- A sweep of one stage, and then those of later stages.
  pub next :
      {A B : Type 0} {m : Async (Logged W) A} {f : A → Async (Logged W) B} (k j hi : ℕ)
      → k ≤ j
      → j ≤ hi
      → Stages k k m
      → ((a : A) → Stages j hi (f a))
      → Stages k hi (m >>= f)
  next k j hi le le' h g = bind-Stages k k hi (omega arith) h (λ a. later (g a))
    where
      later : {B : Type 0} {n : Async (Logged W) B} → Stages j hi n → Stages k hi n
      later s = record {
        adds = λ log w. let (seg, e, r) = s.adds log w in (seg, e, Runs-append k j hi [] seg le r);
      }
