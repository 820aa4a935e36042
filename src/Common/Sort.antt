-- ===== src/Common/Sort.antt =====
-- A stable sort by a numeric key (`[...xs].sort((a, b) => key(a) - key(b))`), and what a filter makes of it.
use Prim.Native.Nat.{ℕ, ◌≤◌}
use mathlib.Core.Path.{◌≡◌, refl, sym, ap, ◌∙◌}
use mathlib.Core.Logic.{◌⊎◌, inl, inr}
use mathlib.Core.Bool.{Bool, true, false, not}
use mathlib.Core.List.{List, [], ◌∷◌, ◌++◌}
use native.Mathlib.Omega.{arith}
use ecs_dev_desktop.Common.Tests.{leb, if◌then◌else◌, leb→le, le→leb, Bool-cases}
use ecs_dev_desktop.Common.Lists.{filter, All, Any}

module _ {ℓ} {A : Type ℓ} (key : A → ℕ) where
  abbrev pub insert_by : A → List A → List A
  insert_by x [] = x ∷ []
  insert_by x (y ∷ ys) =
      let rest = insert_by x ys in if leb (key x) (key y) then x ∷ y ∷ ys else y ∷ rest

  abbrev pub sort_by : List A → List A
  sort_by [] = []
  sort_by (x ∷ xs) = insert_by x (sort_by xs)

  abbrev pub Ascends : List A → Type 0
  Ascends [] = Unit
  Ascends (x ∷ xs) = All (λ y. key x ≤ key y) xs × Ascends xs

  All-insert : (P : A → Type 0) (x : A) (ys : List A) → P x → All P ys → All P (insert_by x ys)
  All-insert P x [] p h = (p, tt)
  All-insert P x (y ∷ ys) p h = elim (Bool-cases (leb (key x) (key y))) [
    | inl e ↦ rw e (p, h)
    | inr e ↦ rw e (h.0, All-insert P x ys p h.1)
  ]

  pub All-sort : (P : A → Type 0) (xs : List A) → All P xs → All P (sort_by xs)
  All-sort P [] h = tt
  All-sort P (x ∷ xs) h = All-insert P x (sort_by xs) h.0 (All-sort P xs h.1)

  below-All :
      (x y : A) (ys : List A)
      → key x ≤ key y
      → All (λ z. key y ≤ key z) ys
      → All (λ z. key x ≤ key z) ys
  below-All x y [] p h = tt
  below-All x y (z ∷ zs) p h = let q = h.0 in (omega arith, below-All x y zs p h.1)

  insert-Ascends : (x : A) (ys : List A) → Ascends ys → Ascends (insert_by x ys)
  insert-Ascends x [] h = (tt, tt)
  insert-Ascends x (y ∷ ys) h = elim (Bool-cases (leb (key x) (key y))) [
    | inl e ↦ let p = leb→le (key x) (key y) e in rw e ((p, below-All x y ys p h.0), h)
    | inr e ↦
        rw e (All-insert (λ z. key y ≤ key z) x ys (ground arith) h.0, insert-Ascends x ys h.1)
  ]

  pub sort-Ascends : (xs : List A) → Ascends (sort_by xs)
  sort-Ascends [] = tt
  sort-Ascends (x ∷ xs) = insert-Ascends x (sort_by xs) (sort-Ascends xs)

  insert-least : (x : A) (ys : List A) → All (λ y. key x ≤ key y) ys → insert_by x ys ≡ x ∷ ys
  insert-least x [] h = refl
  insert-least x (y ∷ ys) h = rw (le→leb (key x) (key y) h.0) refl

module _ {ℓ} {A : Type ℓ} where
  pub All-filter : (P : A → Type 0) (p : A → Bool) (xs : List A) → All P xs → All P (filter p xs)
  All-filter P p [] h = tt
  All-filter P p (x ∷ xs) h = elim (Bool-cases (p x)) [
    | inl e ↦ rw e (h.0, All-filter P p xs h.1)
    | inr e ↦ rw e (All-filter P p xs h.1)
  ]

  pub All-filter_test : (p : A → Bool) (xs : List A) → All (λ x. p x ≡ true) (filter p xs)
  All-filter_test p [] = tt
  All-filter_test p (x ∷ xs) = elim (Bool-cases (p x)) [
    | inl e ↦ rw e (e, All-filter_test p xs)
    | inr e ↦ rw e (All-filter_test p xs)
  ]

  pub All-map : {P Q : A → Type 0} (h : (x : A) → P x → Q x) (xs : List A) → All P xs → All Q xs
  All-map h [] a = tt
  All-map h (x ∷ xs) a = (h x a.0, All-map h xs a.1)

  pub filter-filter :
      (p q r : A → Bool)
      → ((x : A) → r x ≡ (if p x then q x else false))
      → (xs : List A) → filter r xs ≡ filter q (filter p xs)
  filter-filter p q r h [] = refl
  filter-filter p q r h (x ∷ xs) = elim (Bool-cases (p x)) [
    | inl e ↦ rw (h x, e, filter-filter p q r h xs) refl
    | inr e ↦ rw (h x, e, filter-filter p q r h xs) refl
  ]

module _ {ℓ} {A : Type ℓ} where
  pub Any-filter :
      (P : A → Type 0) (p : A → Bool) (xs : List A)
      → Any (λ x. P x × (p x ≡ true)) xs
      → Any P (filter p xs)
  Any-filter P p [] h = elim h [ ]
  Any-filter P p (x ∷ xs) (inl h) = rw h.1 (inl h.0)
  Any-filter P p (x ∷ xs) (inr h) = elim (Bool-cases (p x)) [
    | inl e ↦ rw e (inr (Any-filter P p xs h))
    | inr e ↦ rw e (Any-filter P p xs h)
  ]

module _ {ℓ} {A : Type ℓ} (key : A → ℕ) where
  Any-insert : (P : A → Type 0) (x : A) (ys : List A) → P x ⊎ Any P ys → Any P (insert_by key x ys)
  Any-insert P x [] (inl h) = inl h
  Any-insert P x [] (inr h) = elim h [ ]
  Any-insert P x (y ∷ ys) h = elim (Bool-cases (leb (key x) (key y))) [
    | inl e ↦ rw e h
    | inr e ↦ rw e (elim h [
      | inl p ↦ inr (Any-insert P x ys (inl p))
      | inr (inl q) ↦ inl q
      | inr (inr q) ↦ inr (Any-insert P x ys (inr q))
    ])
  ]

  pub Any-sort : (P : A → Type 0) (xs : List A) → Any P xs → Any P (sort_by key xs)
  Any-sort P [] h = elim h [ ]
  Any-sort P (x ∷ xs) (inl h) = Any-insert P x (sort_by key xs) (inl h)
  Any-sort P (x ∷ xs) (inr h) = Any-insert P x (sort_by key xs) (inr (Any-sort P xs h))

  filter-insert_in :
      (p : A → Bool) (x : A) (ys : List A)
      → Ascends key ys
      → p x ≡ true
      → filter p (insert_by key x ys) ≡ insert_by key x (filter p ys)
  filter-insert_in p x [] h e = rw e refl
  filter-insert_in p x (y ∷ ys) h e = elim (Bool-cases (leb (key x) (key y))) [
    | inl l ↦ elim (Bool-cases (p y)) [
      | inl q ↦ rw (l, e, q, l) refl
      | inr q ↦
          let below = below-All key x y ys (leb→le (key x) (key y) l) h.0 in
          rw (l, e, q)
            (sym (insert-least key x (filter p ys) (All-filter (λ z. key x ≤ key z) p ys below)))
    ]
    | inr l ↦ elim (Bool-cases (p y)) [
      | inl q ↦ rw (l, q, l) (ap (◌∷◌ y) (filter-insert_in p x ys h.1 e))
      | inr q ↦ rw (l, q) (filter-insert_in p x ys h.1 e)
    ]
  ]

  filter-insert_out :
      (p : A → Bool) (x : A) (ys : List A)
      → p x ≡ false
      → filter p (insert_by key x ys) ≡ filter p ys
  filter-insert_out p x [] e = rw e refl
  filter-insert_out p x (y ∷ ys) e = elim (Bool-cases (leb (key x) (key y))) [
    | inl l ↦ rw (l, e) refl
    | inr l ↦ rw (l, filter-insert_out p x ys e) refl
  ]

  -- A stable sort and a filter commute.
  pub filter-sort :
      (p : A → Bool) (xs : List A) → filter p (sort_by key xs) ≡ sort_by key (filter p xs)
  filter-sort p [] = refl
  filter-sort p (x ∷ xs) = elim (Bool-cases (p x)) [
    | inl e ↦ rw e (
        filter-insert_in p x (sort_by key xs) (sort-Ascends key xs) e
        ∙ ap (insert_by key x) (filter-sort p xs))
    | inr e ↦ rw e (filter-insert_out p x (sort_by key xs) e ∙ filter-sort p xs)
  ]

  abbrev pub up_to : ℕ → A → Bool
  up_to cut x = leb (key x) cut

  none_up_to :
      (cut : ℕ) (x : A) (ys : List A)
      → leb (key x) cut ≡ false
      → All (λ y. key x ≤ key y) ys
      → (filter (up_to cut) ys ≡ []) × (filter (λ y. not (up_to cut y)) ys ≡ ys)
  none_up_to cut x [] e h = (refl, refl)
  none_up_to cut x (y ∷ ys) e h =
      let past : leb (key y) cut ≡ false = let l = h.0 in ground arith in
      let (a, b) = none_up_to cut x ys e h.1 in (rw past a, rw (past, b) refl)

  ascending_split :
      (cut : ℕ) (xs : List A)
      → Ascends key xs
      → xs ≡ filter (up_to cut) xs ++ filter (λ x. not (up_to cut x)) xs
  ascending_split cut [] h = refl
  ascending_split cut (x ∷ xs) h = elim (Bool-cases (leb (key x) cut)) [
    | inl e ↦ rw e (ap (◌∷◌ x) (ascending_split cut xs h.1))
    | inr e ↦ let (a, b) = none_up_to cut x xs e h.0 in rw (e, a, b) refl
  ]

  -- A sorted list is what stands up to an instant, sorted, and then the rest, sorted.
  pub sort_split :
      (cut : ℕ) (xs : List A)
      → sort_by key xs
        ≡ sort_by key (filter (up_to cut) xs) ++ sort_by key (filter (λ x. not (up_to cut x)) xs)
  sort_split cut xs =
      rw (← filter-sort (up_to cut) xs, ← filter-sort (λ x. not (up_to cut x)) xs)
        (ascending_split cut (sort_by key xs) (sort-Ascends key xs))
