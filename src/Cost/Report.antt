-- ===== src/Cost/Report.antt =====
-- packages/core/src/observability/cost.ts: the report of a fleet does not depend on the order of its
-- sessions, and its users account for all of them.
use ecs_dev_desktop.Common.{
  ℕ, ◌+◌, ◌≤◌, ◌≡◌, if◌then◌else◌, true, false, inl, inr, refl, sym, ap, ◌∙◌, String, Bool, Option,
  none, some, List, [], ◌∷◌, ◌==◌, string_eq, Bool-cases, arith, sort_with, insert_with,
  IsTotalOrder, Reordered, Reordered-sort,
}
use ecs_dev_desktop.Cost.Price.{
  Floats, Pricing, CostBreakdown, add_breakdowns, SessionCost, UserCost, CostIssue, FleetCostReport,
  charge, charge_all, opened, charged, sum_costs, zero_cost, are_valid, dearer_first, by_workspace,
  issue_by_workspace, aggregate_fleet_cost,
}

module _ {A : Type 0} (f : A → ℕ) where
  -- The sum of a measure over a list.
  abbrev pub sum_of : List A → ℕ
  sum_of [] = 0
  sum_of (x ∷ xs) = f x + sum_of xs

  sum_of-insert :
      (r : A → A → Bool) (x : A) (xs : List A) → sum_of (insert_with r x xs) ≡ f x + sum_of xs
  sum_of-insert r x [] = refl
  sum_of-insert r x (y ∷ ys) = elim (Bool-cases (r x y)) [
    | inl e ↦ rw e refl
    | inr e ↦ let ih = sum_of-insert r x ys in rw (e, ih) (omega arith)
  ]

  sum_of-sort : (r : A → A → Bool) (xs : List A) → sum_of (sort_with r xs) ≡ sum_of xs
  sum_of-sort r [] = refl
  sum_of-sort r (x ∷ xs) = sum_of-insert r x (sort_with r xs) ∙ ap (◌+◌ (f x)) (sum_of-sort r xs)

module _ (n : Floats) (locale_le : String → String → Bool) where
  -- When the comparison of ids is a total order, lists of sessions that differ only by exchanges of
  -- sessions of different ids, and such lists of issues, give one report, though addition of money need
  -- not be associative or commutative.
  pub report_ignores_order :
      {xs ys : List (SessionCost n)} {us vs : List (CostIssue n)} (pricing : Pricing n)
      (generated_at window_start : String)
      → IsTotalOrder locale_le
      → Reordered (by_workspace n locale_le) xs ys
      → Reordered (issue_by_workspace n locale_le) us vs
      → aggregate_fleet_cost n locale_le xs pricing generated_at window_start us
        ≡ aggregate_fleet_cost n locale_le ys pricing generated_at window_start vs
  unfolding aggregate_fleet_cost
  report_ignores_order pricing generated_at window_start order r s =
      rw
        (
          Reordered-sort (by_workspace n locale_le)
              (
                λ a b. order.0 a.workspace_id b.workspace_id,
                λ a b c. order.1 a.workspace_id b.workspace_id c.workspace_id,
              )
              r,
          Reordered-sort (issue_by_workspace n locale_le)
              (
                λ a b. order.0 a.workspace_id b.workspace_id,
                λ a b c. order.1 a.workspace_id b.workspace_id c.workspace_id,
              )
              s,
        )
        refl

  module _ (f : CostBreakdown n → ℕ) where
    abbrev IsAdditive : Type 0
    IsAdditive =
        ((a b : CostBreakdown n) → f (add_breakdowns n a b) ≡ f a + f b) × (f (zero_cost n) ≡ 0)

    charge-sum :
        (additive : IsAdditive) (s : SessionCost n) (us : List (UserCost n))
        → sum_of (λ (u : UserCost n). f u.cost) (charge n s us)
          ≡ sum_of (λ (u : UserCost n). f u.cost) us + f s.cost
    charge-sum additive s [] =
        let e = additive.0 (zero_cost n) s.cost in let z = additive.1 in omega arith
    charge-sum additive s (u ∷ us) = elim (Bool-cases (u.owner == s.owner)) [
      | inl q ↦ let e = additive.0 u.cost s.cost in rw q (omega arith)
      | inr q ↦ let ih = charge-sum additive s us in rw (q, ih) (omega arith)
    ]

    charge_all-sum :
        (additive : IsAdditive) (ss : List (SessionCost n)) (us : List (UserCost n))
        (sum : CostBreakdown n)
        → sum_of (λ (u : UserCost n). f u.cost) us ≡ f sum
        → sum_of (λ (u : UserCost n). f u.cost) (charge_all n ss us) ≡ f (sum_costs n ss sum)
    charge_all-sum additive [] us sum h = h
    charge_all-sum additive (s ∷ ss) us sum h =
        charge_all-sum additive ss (charge n s us) (add_breakdowns n sum s.cost)
          (charge-sum additive s us ∙ ap (λ k. k + f s.cost) h ∙ sym (additive.0 sum s.cost))

    sum_costs-sum :
        (additive : IsAdditive) (ss : List (SessionCost n)) (sum : CostBreakdown n)
        → f (sum_costs n ss sum) ≡ f sum + sum_of (λ (s : SessionCost n). f s.cost) ss
    sum_costs-sum additive [] sum = omega arith
    sum_costs-sum additive (s ∷ ss) sum =
        let ih = sum_costs-sum additive ss (add_breakdowns n sum s.cost) in
        let e = additive.0 sum s.cost in omega arith

  -- A measure of an entry that grows by that of each session that is charged to the entry.
  module _ (g : UserCost n → ℕ) (h : SessionCost n → ℕ) where
    abbrev Grows : Type 0
    Grows =
        (s : SessionCost n)
        → (g (opened n s) ≡ h s) × ((u : UserCost n) → g (charged n s u) ≡ g u + h s)

    charge-owner :
        (grows : Grows) (o : String) (s : SessionCost n) (us : List (UserCost n))
        → sum_of (λ (u : UserCost n). if u.owner == o then g u else 0) (charge n s us)
          ≡ sum_of (λ (u : UserCost n). if u.owner == o then g u else 0) us
            + (if s.owner == o then h s else 0)
    charge-owner grows o s [] =
        ap (λ k. (if s.owner == o then k else 0) + 0) (grows s).0 ∙ zero_first _
      where
        zero_first : (k : ℕ) → k + 0 ≡ 0 + k
        zero_first k = omega arith
    charge-owner grows o s (u ∷ us) = elim (Bool-cases (u.owner == s.owner)) [
      | inl q ↦
          let same = (string_eq.test_iff u.owner s.owner).0 q in
          let e = (grows s).1 u in
          elim (Bool-cases (u.owner == o)) [
            | inl t ↦
                let t' : (s.owner == o) ≡ true = ap (λ x. x == o) (sym same) ∙ t in
                rw (q, t, t') (omega arith)
            | inr t ↦
                let t' : (s.owner == o) ≡ false = ap (λ x. x == o) (sym same) ∙ t in
                rw (q, t, t') (omega arith)
          ]
      | inr q ↦ let ih = charge-owner grows o s us in rw (q, ih) (omega arith)
    ]

    charge_all-owner :
        (grows : Grows) (o : String) (ss : List (SessionCost n)) (us : List (UserCost n))
        → sum_of (λ (u : UserCost n). if u.owner == o then g u else 0) (charge_all n ss us)
          ≡ sum_of (λ (u : UserCost n). if u.owner == o then g u else 0) us
            + sum_of (λ (s : SessionCost n). if s.owner == o then h s else 0) ss
    charge_all-owner grows o [] us = omega arith
    charge_all-owner grows o (s ∷ ss) us =
        let ih = charge_all-owner grows o ss (charge n s us) in
        let e = charge-owner grows o s us in omega arith

  -- How many entries an owner has.
  abbrev pub entries : String → List (UserCost n) → ℕ
  entries o us = sum_of (λ (u : UserCost n). if u.owner == o then 1 else 0) us

  charge-others :
      (o : String) (s : SessionCost n) (us : List (UserCost n))
      → (s.owner == o) ≡ false
      → entries o (charge n s us) ≡ entries o us
  charge-others o s [] h = rw h refl
  charge-others o s (u ∷ us) h = elim (Bool-cases (u.owner == s.owner)) [
    | inl q ↦ rw q refl
    | inr q ↦ let ih = charge-others o s us h in rw (q, ih) refl
  ]

  owners_apart :
      (o : String) (s : SessionCost n) (u : UserCost n)
      → (u.owner == s.owner) ≡ false
      → (u.owner == o) ≡ true
      → (s.owner == o) ≡ false
  owners_apart o s u q t = elim (Bool-cases (s.owner == o)) [
    | inr off ↦ off
    | inl hit ↦
        let one =
          (string_eq.test_iff u.owner s.owner).1
            ((string_eq.test_iff u.owner o).0 t ∙ sym ((string_eq.test_iff s.owner o).0 hit)) in
        let both : true ≡ false = sym one ∙ q in cc
  ]

  charge-one :
      (o : String) (s : SessionCost n) (us : List (UserCost n))
      → entries o us ≤ 1
      → entries o (charge n s us) ≤ 1
  charge-one o s [] h = elim (Bool-cases (s.owner == o)) [
    | inl t ↦ rw t (omega arith)
    | inr t ↦ rw t (omega arith)
  ]
  charge-one o s (u ∷ us) h = elim (Bool-cases (u.owner == s.owner)) [
    | inl q ↦ rw q h
    | inr q ↦ elim (Bool-cases (u.owner == o)) [
      | inl t ↦
          let off = owners_apart o s u q t in
          let h' : 1 + entries o us ≤ 1 = rw t at h in rw (q, t, charge-others o s us off) h'
      | inr t ↦
          let h' : 0 + entries o us ≤ 1 = rw t at h in
          let ih = charge-one o s us (omega arith) in rw (q, t) (omega arith)
    ]
  ]

  charge_all-one :
      (o : String) (ss : List (SessionCost n)) (us : List (UserCost n))
      → entries o us ≤ 1
      → entries o (charge_all n ss us) ≤ 1
  charge_all-one o [] us h = h
  charge_all-one o (s ∷ ss) us h = charge_all-one o ss (charge n s us) (charge-one o s us h)

  from_zero : (k : ℕ) → 0 + k ≡ k
  from_zero k = omega arith

  -- A duration adds up: over the users it makes the fleet's, and so it does over the sessions.
  abbrev pub AddsUp : (CostBreakdown n → ℕ) → List (SessionCost n) → FleetCostReport n → Type 0
  AddsUp f by_session r =
      (sum_of (λ (u : UserCost n). f u.cost) r.by_user ≡ f r.total)
      × (f r.total ≡ sum_of (λ (s : SessionCost n). f s.cost) by_session)

  -- A measure of the sessions of an owner is that of the owner's entries.
  abbrev pub Owns :
      String
      → (UserCost n → ℕ)
      → (SessionCost n → ℕ)
      → List (SessionCost n)
      → List (UserCost n)
      → Type 0
  Owns o g h by_session by_user =
      sum_of (λ (u : UserCost n). if u.owner == o then g u else 0) by_user
      ≡ sum_of (λ (s : SessionCost n). if s.owner == o then h s else 0) by_session

  abbrev pub IsAttributed : String → List (SessionCost n) → Option (FleetCostReport n) → Type 0
  IsAttributed o by_session none = Unit
  IsAttributed o by_session (some r) =
      (entries o r.by_user ≤ 1)
      × Owns o (λ u. u.sessions) (λ s. 1) by_session r.by_user
      × Owns o (λ u. u.cost.running_ms) (λ s. s.cost.running_ms) by_session r.by_user
      × Owns o (λ u. u.cost.stopped_ms) (λ s. s.cost.stopped_ms) by_session r.by_user
      × Owns o (λ u. u.cost.teardown_ms) (λ s. s.cost.teardown_ms) by_session r.by_user
      × AddsUp (λ c. c.running_ms) by_session r
      × AddsUp (λ c. c.stopped_ms) by_session r
      × AddsUp (λ c. c.teardown_ms) by_session r

  -- In a report, every owner has at most one entry, which counts exactly the sessions of this owner and
  -- has their running, stopped and teardown times; an owner without an entry has no session. The times
  -- of the users add up to those of the fleet, as those of the sessions do.
  pub report-IsAttributed :
      (o : String) (xs : List (SessionCost n)) (pricing : Pricing n)
      (generated_at window_start : String) (us : List (CostIssue n))
      → IsAttributed o xs (aggregate_fleet_cost n locale_le xs pricing generated_at window_start us)
  unfolding aggregate_fleet_cost
  report-IsAttributed o xs pricing generated_at window_start us =
      elim (Bool-cases (are_valid n canonical)) [
        | inl e ↦ rw e (
          one_entry,
          owned (λ u. u.sessions) (λ s. 1) (λ s. (refl, λ u. refl)),
          owned (λ u. u.cost.running_ms) (λ s. s.cost.running_ms)
              (λ s. (from_zero s.cost.running_ms, λ u. refl)),
          owned (λ u. u.cost.stopped_ms) (λ s. s.cost.stopped_ms)
              (λ s. (from_zero s.cost.stopped_ms, λ u. refl)),
          owned (λ u. u.cost.teardown_ms) (λ s. s.cost.teardown_ms)
              (λ s. (from_zero s.cost.teardown_ms, λ u. refl)),
          adds_up (λ c. c.running_ms) (λ a b. refl) refl,
          adds_up (λ c. c.stopped_ms) (λ a b. refl) refl,
          adds_up (λ c. c.teardown_ms) (λ a b. refl) refl,
        )
        | inr e ↦ rw e tt
      ]
    where
      canonical : List (SessionCost n)
      canonical = sort_with (by_workspace n locale_le) xs

      users : List (UserCost n)
      users = charge_all n canonical []

      dearer : UserCost n → UserCost n → Bool
      dearer a b = dearer_first n a.cost b.cost

      one_entry : entries o (sort_with dearer users) ≤ 1
      one_entry =
          let same = sum_of-sort (λ (u : UserCost n). if u.owner == o then 1 else 0) dearer users in
          let one = charge_all-one o canonical [] (omega arith) in rw same one

      owned :
          (g : UserCost n → ℕ) (h : SessionCost n → ℕ)
          → ((s : SessionCost n)
              → (g (opened n s) ≡ h s) × ((u : UserCost n) → g (charged n s u) ≡ g u + h s))
          → Owns o g h xs (sort_with dearer users)
      owned g h grows =
          sum_of-sort (λ (u : UserCost n). if u.owner == o then g u else 0) dearer users
          ∙ charge_all-owner g h grows o canonical []
          ∙ from_zero _
          ∙ sum_of-sort (λ (s : SessionCost n). if s.owner == o then h s else 0)
              (by_workspace n locale_le) xs

      adds_up :
          (f : CostBreakdown n → ℕ)
          → ((a b : CostBreakdown n) → f (add_breakdowns n a b) ≡ f a + f b)
          → f (zero_cost n) ≡ 0
          → (sum_of (λ (u : UserCost n). f u.cost) (sort_with dearer users)
              ≡ f (sum_costs n canonical (zero_cost n)))
            × (f (sum_costs n canonical (zero_cost n))
                ≡ sum_of (λ (s : SessionCost n). f s.cost) xs)
      adds_up f add none_yet = (
        sum_of-sort (λ (u : UserCost n). f u.cost) dearer users
            ∙ charge_all-sum f (add, none_yet) canonical [] (zero_cost n) (sym none_yet),
        sum_costs-sum f (add, none_yet) canonical (zero_cost n)
            ∙ ap (λ k. k + sum_of (λ (s : SessionCost n). f s.cost) canonical) none_yet
            ∙ drop_zero
            ∙ sum_of-sort (λ (s : SessionCost n). f s.cost) (by_workspace n locale_le) xs,
      )
        where
          drop_zero :
              0 + sum_of (λ (s : SessionCost n). f s.cost) canonical
              ≡ sum_of (λ (s : SessionCost n). f s.cost) canonical
          drop_zero = omega arith
