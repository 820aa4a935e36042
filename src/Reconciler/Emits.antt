-- ===== src/Reconciler/Emits.antt =====
-- services/reconciler/src/index.ts: rules for actions all of whose calls satisfy a predicate.
use ecs_dev_desktop.Common.{◌≡◌, refl, ap, ◌∙◌, List, [], ◌∷◌, ◌++◌, All}
use ecs_dev_desktop.Reconciler.Action.{
  Outcome, returned, thrown, Async, pure, attempted, continue, for_each, ◌>>=◌,
}
use ecs_dev_desktop.Reconciler.Trace.{Call, Logged, noting}
use ecs_dev_desktop.Reconciler.Stages.{append_assoc, append_nil}

pub All-append : (P : Call → Type 0) (xs ys : List Call) → All P xs → All P ys → All P (xs ++ ys)
All-append P [] ys h k = k
All-append P (x ∷ xs) ys h k = (h.0, All-append P xs ys h.1 k)

module _ (P : Call → Type 0) where
  abbrev pub AddsAll : {W A : Type 0} → List Call → Outcome A × Logged W → Type 0
  AddsAll log r = (seg : List Call) × (r.1.0 ≡ log ++ seg) × All P seg

  pub record Emits {W A : Type 0} (m : Async (Logged W) A) : Type 0 where
    pub adds : (log : List Call) (w : W) → AddsAll log (m (log, w))

  module _ {W : Type 0} where
    pub pure-Emits : {A : Type 0} (a : A) → Emits {W = W} (pure a)
    pure-Emits a = record { adds = λ log w. ([], append_nil log, tt) }

    noting-AddsAll :
        {A : Type 0} (c : Call) (m : Async W A)
        → P c
        → (log : List Call) (w : W) → AddsAll log (noting c m (log, w))
    unfolding noting
    noting-AddsAll c m p log w = (c ∷ [], refl, (p, tt))

    pub noting-Emits : {A : Type 0} (c : Call) (m : Async W A) → P c → Emits (noting c m)
    noting-Emits c m p = record { adds = noting-AddsAll c m p }

    pub attempted-Emits : {A : Type 0} {m : Async (Logged W) A} → Emits m → Emits (attempted m)
    attempted-Emits h = record { adds = h.adds }

    pub reading-Emits :
        {A : Type 0} {f : Logged W → Async (Logged W) A}
        → ((s : Logged W) → Emits (f s))
        → Emits (λ s. f s s)
    reading-Emits h = record { adds = λ log w. (h (log, w)).adds log w }

    bind-AddsAll :
        {A B : Type 0} (m : Async (Logged W) A) (f : A → Async (Logged W) B)
        → Emits m
        → ((a : A) → Emits (f a))
        → (log : List Call) (w : W) → AddsAll log ((m >>= f) (log, w))
    unfolding ◌>>=◌
    bind-AddsAll {A} {B} m f h k log w =
        let (seg, e, r) = h.adds log w in go (m (log, w)).0 (m (log, w)).1 seg e r
      where
        go :
            (o : Outcome A) (s : Logged W) (seg : List Call)
            → s.0 ≡ log ++ seg
            → All P seg
            → AddsAll {A = B} log (continue o f s)
        go (returned a) s seg e r =
            let (more, e', r') = (k a).adds s.0 s.1 in
            (
              seg ++ more,
              e' ∙ ap (λ l. l ++ more) e ∙ append_assoc log seg more,
              All-append P seg more r r',
            )
        go (thrown x) s seg e r = (seg, e, r)

    pub bind-Emits :
        {A B : Type 0} {m : Async (Logged W) A} {f : A → Async (Logged W) B}
        → Emits m
        → ((a : A) → Emits (f a))
        → Emits (m >>= f)
    bind-Emits {m} {f} h k = record { adds = bind-AddsAll m f h k }

    given-AddsAll :
        {A B : Type 0} (a : A) (f : A → Async (Logged W) B)
        → Emits (f a)
        → (log : List Call) (w : W) → AddsAll log ((pure a >>= f) (log, w))
    unfolding ◌>>=◌
    given-AddsAll a f h log w = h.adds log w

    pub given-Emits :
        {A B : Type 0} (a : A) (f : A → Async (Logged W) B) → Emits (f a) → Emits (pure a >>= f)
    given-Emits a f h = record { adds = given-AddsAll a f h }

    loop-AddsAll :
        {A R C : Type 0} (op : A → Async (Logged W) R) (count : Outcome R → C → C) (xs : List A)
        (c : C)
        → All (λ a. Emits (op a)) xs
        → (log : List Call) (w : W) → AddsAll log (for_each op count xs c (log, w))
    unfolding for_each
    loop-AddsAll op count [] c h log w = ([], append_nil log, tt)
    loop-AddsAll op count (x ∷ xs) c h log w =
        let (seg, e, r) = h.0.adds log w in
        let (o, s) = op x (log, w) in
        let (more, e', r') = loop-AddsAll op count xs (count o c) h.1 s.0 s.1 in
        (
          seg ++ more,
          e' ∙ ap (λ l. l ++ more) e ∙ append_assoc log seg more,
          All-append P seg more r r',
        )

    pub for_each-Emits :
        {A R C : Type 0} (op : A → Async (Logged W) R) (count : Outcome R → C → C) (xs : List A)
        (c : C)
        → All (λ a. Emits (op a)) xs
        → Emits (for_each op count xs c)
    for_each-Emits op count xs c h = record { adds = loop-AddsAll op count xs c h }
