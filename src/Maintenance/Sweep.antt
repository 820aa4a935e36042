-- ===== src/Maintenance/Sweep.antt =====
-- A sweep that selects resources by a test and deletes them by their ids: lemmas on any resource.
use ecs_dev_desktop.Common.{
  ◌≡◌, ◌≢◌, ◌⊎◌, inl, inr, refl, sym, ◌∙◌, Bool, true, false, not, ◌||◌, List, [], ◌∷◌, map, ◌==◌,
  string_eq, filter, includes, All, Bool-cases, String,
}

or_true : (b : Bool) → (b || true) ≡ true
or_true true = refl
or_true false = refl

module _ {A : Type 0} (key : A → String) where
  -- What is left of a list of resources after the deletion of the ids.
  abbrev pub without : List String → List A → List A
  without gone xs = filter (λ x. not (includes gone (key x))) xs

  -- No two of the resources have one id.
  abbrev pub HasDistinct : List A → Type 0
  HasDistinct [] = Unit
  HasDistinct (x ∷ xs) = All (λ y. key x ≢ key y) xs × HasDistinct xs

module _ {A : Type 0} (key : A → String) (p : A → Bool) where
  -- The ids that a sweep selects.
  abbrev pub selected : List A → List String
  selected xs = map key (filter p xs)

  pub All-selected :
      (P : String → Type 0) (xs : List A) → ((x : A) → p x ≡ true → P (key x)) → All P (selected xs)
  All-selected P [] h = tt
  All-selected P (x ∷ xs) h = elim (Bool-cases (p x)) [
    | inl e ↦ rw e (h x e, All-selected P xs h)
    | inr e ↦ rw e (All-selected P xs h)
  ]

  pub selected-covers :
      (xs : List A) (gone : List String)
      → ((i : String) → includes (selected xs) i ≡ true → includes gone i ≡ true)
      → All (λ x. p x ≡ true → includes gone (key x) ≡ true) xs
  selected-covers [] gone h = tt
  selected-covers (x ∷ xs) gone h = elim (Bool-cases (p x)) [
    | inl e ↦ (
      λ _. h (key x) (rw (e, (string_eq.test_iff (key x) (key x)).1 refl) refl),
      selected-covers xs gone (λ i m. h i (rw (e, m) (or_true (key x == i)))),
    )
    | inr e ↦ (
      λ q. let both : true ≡ false = sym q ∙ e in cc,
      selected-covers xs gone (λ i m. h i (rw (e, m) refl)),
    )
  ]

  without-settled :
      (xs : List A) (gone : List String)
      → All (λ x. p x ≡ true → includes gone (key x) ≡ true) xs
      → selected (without key gone xs) ≡ []
  without-settled [] gone h = refl
  without-settled (x ∷ xs) gone h = elim (Bool-cases (includes gone (key x))) [
    | inl e ↦ rw e (without-settled xs gone h.1)
    | inr e ↦ elim (Bool-cases (p x)) [
      | inl q ↦ let both : true ≡ false = sym (h.0 q) ∙ e in cc
      | inr q ↦ rw (e, q) (without-settled xs gone h.1)
    ]
  ]

  -- A sweep that has deleted all that it selected selects nothing when it runs again.
  pub sweep_settles : (xs : List A) → selected (without key (selected xs) xs) ≡ []
  sweep_settles xs = without-settled xs (selected xs) (selected-covers xs (selected xs) (λ i m. m))

ne→beq : (a b : String) → a ≢ b → (a == b) ≡ false
ne→beq a b h = elim (Bool-cases (a == b)) [
  | inl e ↦ absurd (h ((string_eq.test_iff a b).0 e))
  | inr e ↦ e
]

module _ {A : Type 0} (key : A → String) (p : A → Bool) where
  selected-misses :
      (i : String) (xs : List A) → All (λ y. i ≢ key y) xs → includes (selected key p xs) i ≡ false
  selected-misses i [] h = refl
  selected-misses i (x ∷ xs) h = elim (Bool-cases (p x)) [
    | inl e ↦ rw (e, ne→beq (key x) i (λ q. h.0 (sym q))) (selected-misses i xs h.1)
    | inr e ↦ rw e (selected-misses i xs h.1)
  ]

  selected-keeps :
      (xs : List A)
      → HasDistinct key xs
      → All (λ x. p x ≡ false → includes (selected key p xs) (key x) ≡ false) xs
  selected-keeps [] d = tt
  selected-keeps (x ∷ xs) d = (
    (λ e. rw e (selected-misses (key x) xs d.0)),
    widen xs d.0 (selected-keeps xs d.1) (Bool-cases (p x)),
  )
    where
      widen :
          (ys : List A)
          → All (λ y. key x ≢ key y) ys
          → All (λ y. p y ≡ false → includes (selected key p xs) (key y) ≡ false) ys
          → (p x ≡ true) ⊎ (p x ≡ false)
          → All (λ y. p y ≡ false → includes (selected key p (x ∷ xs)) (key y) ≡ false) ys
      widen [] ne k c = tt
      widen (y ∷ ys) ne k (inl e) =
          ((λ q. rw (e, ne→beq (key x) (key y) ne.0) (k.0 q)), widen ys ne.1 k.1 (inl e))
      widen (y ∷ ys) ne k (inr e) = ((λ q. rw e (k.0 q)), widen ys ne.1 k.1 (inr e))

  without-eq-filter :
      (xs : List A) (gone : List String)
      → All (λ x. p x ≡ true → includes gone (key x) ≡ true) xs
      → All (λ x. p x ≡ false → includes gone (key x) ≡ false) xs
      → without key gone xs ≡ filter (λ x. not (p x)) xs
  without-eq-filter [] gone h k = refl
  without-eq-filter (x ∷ xs) gone h k = elim (Bool-cases (p x)) [
    | inl e ↦ rw (e, h.0 e) (without-eq-filter xs gone h.1 k.1)
    | inr e ↦ rw (e, k.0 e) (rw (without-eq-filter xs gone h.1 k.1))
  ]

  -- A sweep leaves exactly the resources that it does not select.
  pub sweep_exact :
      (xs : List A)
      → HasDistinct key xs
      → without key (selected key p xs) xs ≡ filter (λ x. not (p x)) xs
  sweep_exact xs d =
      without-eq-filter xs (selected key p xs)
        (selected-covers key p xs (selected key p xs) (λ i m. m)) (selected-keeps xs d)
