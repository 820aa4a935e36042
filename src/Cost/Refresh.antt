-- ===== src/Cost/Refresh.antt =====
-- packages/control-plane/src/cost-service.ts: when the checkpoints are written again.
use ecs_dev_desktop.Common.{
  ℕ, ◌+◌, ◌≡◌, ◌↔◌, refl, sym, ap, ◌∙◌, String, Bool, true, false, not, ◌&&◌, Option, none, some,
  List, [], ◌∷◌, ◌==◌, string_eq, leb, ltb, map, All, if◌then◌else◌, Bool-cases, inl, inr,
}
use ecs_dev_desktop.Cost.Price.{Floats}
use ecs_dev_desktop.Cost.Ledger.{CostRollupRecord, priced, unpriced}

-- `r.checkpointAt`
abbrev pub checkpoint_at : (n : Floats) → CostRollupRecord n → String
checkpoint_at n (priced id owner at start sizing totals phase) = at.text
checkpoint_at n (unpriced id owner at start x) = at.text

module _ (date_parse : String → Option ℕ) where
  -- `none` where the source throws
  abbrev pub earlier_of : String → String → Option ℕ → Option ℕ → Option String
  earlier_of a b none y = none
  earlier_of a b (some x) none = none
  earlier_of a b (some x) (some y) = some (if leb x y then a else b)

  abbrev pub earlier_iso : String → String → Option String
  earlier_iso a b = earlier_of a b (date_parse a) (date_parse b)

  abbrev pub continue_with :
      Option String → (String → Option (String × Bool)) → Option (String × Bool)
  continue_with none next = none
  continue_with (some oldest) next = next oldest

  -- The loop over the rows: the oldest checkpoint, and whether there are two generations
  abbrev pub scan_checkpoints : String → List String → String → Bool → Option (String × Bool)
  scan_checkpoints first [] oldest mixed = some (oldest, mixed)
  scan_checkpoints first (at ∷ ats) oldest mixed =
      continue_with (earlier_iso oldest at)
        (λ o. scan_checkpoints first ats o (if at == first then mixed else true))

  -- `Date.parse(this.now()) - Date.parse(oldest) < maxAgeMs`, which is false of NaN
  abbrev pub is_young : ℕ → ℕ → Option ℕ → Bool
  is_young max_age_ms now none = false
  is_young max_age_ms now (some oldest) = ltb now (oldest + max_age_ms)

  abbrev pub is_stale : ℕ → ℕ → Option (String × Bool) → Option Bool
  is_stale max_age_ms now none = none
  is_stale max_age_ms now (some (oldest, mixed)) =
      some (not (not mixed && is_young max_age_ms now (date_parse oldest)))

  -- Whether `rollupIfStale` calls `rollup`
  abbrev pub rolls_up : ℕ → ℕ → List String → Option Bool
  rolls_up max_age_ms now [] = some true
  rolls_up max_age_ms now (first ∷ ats) =
      is_stale max_age_ms now (scan_checkpoints first (first ∷ ats) first false)

  unfoldable pub rollup_if_stale : (n : Floats) → ℕ → ℕ → List (CostRollupRecord n) → Option Bool
  rollup_if_stale n max_age_ms now existing =
      rolls_up max_age_ms now (map (checkpoint_at n) existing)

  earlier_iso_self : (a : String) (ms : ℕ) → date_parse a ≡ some ms → earlier_iso a a ≡ some a
  earlier_iso_self a ms q = ap (λ o. earlier_of a a o o) q ∙ ap some (if_same (leb ms ms) a)
    where
      if_same : (b : Bool) (a : String) → (if b then a else a) ≡ a
      if_same true a = refl
      if_same false a = refl

  scan_same :
      (first : String) (ms : ℕ) (ats : List String)
      → date_parse first ≡ some ms
      → All (λ at. at ≡ first) ats
      → scan_checkpoints first ats first false ≡ some (first, false)
  scan_same first ms [] q h = refl
  scan_same first ms (at ∷ ats) q h =
      ap
        (λ o.
          continue_with o (λ p. scan_checkpoints first ats p (if at == first then false else true)))
        (ap (earlier_iso first) h.0 ∙ earlier_iso_self first ms q)
      ∙ ap (λ b. scan_checkpoints first ats first (if b then false else true))
          ((string_eq.test_iff at first).1 h.0)
      ∙ scan_same first ms ats q h.1

  abbrev is_mixed : Option (String × Bool) → Bool
  is_mixed none = false
  is_mixed (some (oldest, mixed)) = mixed

  abbrev IsPure : String → List String → Bool → Type 0
  IsPure first ats mixed = (mixed ≡ false) × All (λ at. at ≡ first) ats

  IsPure-step :
      (first at : String) (ats : List String) (mixed : Bool)
      → IsPure first ats (if at == first then mixed else true)
      → IsPure first (at ∷ ats) mixed
  IsPure-step first at ats mixed h = elim (Bool-cases (at == first)) [
    | inl e ↦ (
      sym (ap (λ b. if b then mixed else true) e) ∙ h.0,
      ((string_eq.test_iff at first).0 e, h.1),
    )
    | inr e ↦ let clash : true ≡ false = sym (ap (λ b. if b then mixed else true) e) ∙ h.0 in cc
  ]

  continue-IsPure :
      (first at : String) (ats : List String) (mixed : Bool) (o : String) (x : Option String)
      → ((p : String) (m : Bool)
          → scan_checkpoints first ats p m ≡ some (o, false)
          → IsPure first ats m)
      → continue_with x (λ p. scan_checkpoints first ats p (if at == first then mixed else true))
        ≡ some (o, false)
      → IsPure first (at ∷ ats) mixed
  continue-IsPure first at ats mixed o none ih h = cc
  continue-IsPure first at ats mixed o (some p) ih h =
      IsPure-step first at ats mixed (ih p (if at == first then mixed else true) h)

  scan-IsPure :
      (first : String) (ats : List String) (oldest : String) (mixed : Bool) (o : String)
      → scan_checkpoints first ats oldest mixed ≡ some (o, false)
      → IsPure first ats mixed
  scan-IsPure first [] oldest mixed o h = (ap is_mixed h, tt)
  scan-IsPure first (at ∷ ats) oldest mixed o h =
      continue-IsPure first at ats mixed o (earlier_iso oldest at)
        (λ p m q. scan-IsPure first ats p m o q) h

  -- All rows are of one generation, whose checkpoint is younger than the maximal age.
  abbrev pub IsFresh : ℕ → ℕ → List String → Type 0
  IsFresh max_age_ms now [] = true ≡ false
  IsFresh max_age_ms now (first ∷ ats) =
      All (λ at. at ≡ first) ats
      × ((ms : ℕ) × (date_parse first ≡ some ms) × (ltb now (ms + max_age_ms) ≡ true))

  IsFresh-kept :
      (max_age_ms now : ℕ) (ats : List String)
      → IsFresh max_age_ms now ats
      → rolls_up max_age_ms now ats ≡ some false
  IsFresh-kept max_age_ms now [] h = cc
  IsFresh-kept max_age_ms now (first ∷ ats) (same, (ms, q, young)) =
      ap (is_stale max_age_ms now) (scan_same first ms (first ∷ ats) q (refl, same))
      ∙ ap (λ o. some (not (is_young max_age_ms now o))) q
      ∙ ap (λ b. some (not b)) young

  young_instant :
      (max_age_ms now : ℕ) (o : Option ℕ)
      → is_young max_age_ms now o ≡ true
      → (ms : ℕ) × (o ≡ some ms) × (ltb now (ms + max_age_ms) ≡ true)
  young_instant max_age_ms now none h = cc
  young_instant max_age_ms now (some ms) h = (ms, refl, h)

  refuted_negation : (b : Bool) → some (not b) ≡ some false → b ≡ true
  refuted_negation true h = refl
  refuted_negation false h = cc

  pure_scan :
      (max_age_ms now : ℕ) (x : Option (String × Bool))
      → is_stale max_age_ms now x ≡ some false
      → (o : String) × (x ≡ some (o, false)) × (is_young max_age_ms now (date_parse o) ≡ true)
  pure_scan max_age_ms now none h = cc
  pure_scan max_age_ms now (some (o, true)) h = cc
  pure_scan max_age_ms now (some (o, false)) h =
      (o, refl, refuted_negation (is_young max_age_ms now (date_parse o)) h)

  parses_from :
      (first : String) (x : Option ℕ) (next : String → Option (String × Bool)) (r : String × Bool)
      → continue_with (earlier_of first first x x) next ≡ some r
      → (ms : ℕ) × (x ≡ some ms)
  parses_from first none next r h = cc
  parses_from first (some ms) next r h = (ms, refl)

  abbrev oldest_in : String → Option (String × Bool) → String
  oldest_in first none = first
  oldest_in first (some (oldest, mixed)) = oldest

  kept-IsFresh :
      (max_age_ms now : ℕ) (ats : List String)
      → rolls_up max_age_ms now ats ≡ some false
      → IsFresh max_age_ms now ats
  kept-IsFresh max_age_ms now [] h = cc
  kept-IsFresh max_age_ms now (first ∷ ats) h =
      let (o, scanned, young) =
        pure_scan max_age_ms now (scan_checkpoints first (first ∷ ats) first false) h in
      let same = (scan-IsPure first (first ∷ ats) first false o scanned).1.1 in
      let (ms, q) =
        parses_from first (date_parse first)
          (λ p. scan_checkpoints first ats p (if first == first then false else true)) (o, false)
          scanned in
      let both = sym (scan_same first ms (first ∷ ats) q (refl, same)) ∙ scanned in
      let is_first = ap (oldest_in first) both in
      (
        same,
        young_instant max_age_ms now (date_parse first)
            (ap (λ t. is_young max_age_ms now (date_parse t)) is_first ∙ young),
      )

  -- The rows are kept exactly if there are some, all have the checkpoint of the first, and that is a date
  -- less than the maximal age before now.
  pub rollup_if_stale_iff :
      (n : Floats) (max_age_ms now : ℕ) (existing : List (CostRollupRecord n))
      → (rollup_if_stale n max_age_ms now existing ≡ some false)
        ↔ IsFresh max_age_ms now (map (checkpoint_at n) existing)
  unfolding rollup_if_stale
  rollup_if_stale_iff n max_age_ms now existing =
      let ats = map (checkpoint_at n) existing in
      (kept-IsFresh max_age_ms now ats, IsFresh-kept max_age_ms now ats)
