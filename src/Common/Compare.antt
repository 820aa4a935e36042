-- ===== src/Common/Compare.antt =====
-- A stable sort by a comparison (`xs.sort(compare)`), and which reorderings it forgets.
use mathlib.Core.Path.{◌≡◌, refl, sym, ap, ◌∙◌}
use mathlib.Core.Logic.{◌⊎◌, inl, inr}
use mathlib.Core.Bool.{Bool, true, false}
use mathlib.Core.List.{List, [], ◌∷◌}
use ecs_dev_desktop.Common.Tests.{if◌then◌else◌, Bool-cases}

-- `goes_before x y` is `compare(x, y) <= 0`
module _ {ℓ} {A : Type ℓ} (goes_before : A → A → Bool) where
  abbrev pub insert_with : A → List A → List A
  insert_with x [] = x ∷ []
  insert_with x (y ∷ ys) =
      let rest = insert_with x ys in if goes_before x y then x ∷ y ∷ ys else y ∷ rest

  abbrev pub sort_with : List A → List A
  sort_with [] = []
  sort_with (x ∷ xs) = insert_with x (sort_with xs)

  abbrev pub IsTotalOrder : Type ℓ
  IsTotalOrder =
      ((x y : A) → (goes_before x y ≡ true) ⊎ (goes_before y x ≡ true))
      × ((x y z : A) → goes_before x y ≡ true → goes_before y z ≡ true → goes_before x z ≡ true)

  -- One of the two goes first, and not the other.
  abbrev pub AreOrdered : A → A → Type 0
  AreOrdered x y =
      ((goes_before x y ≡ true) × (goes_before y x ≡ false))
      ⊎ ((goes_before x y ≡ false) × (goes_before y x ≡ true))

  -- The second list is the first with neighbours exchanged that are not equal in the order.
  pub data Reordered : List A → List A → Type ℓ where
    same : {xs : List A} → Reordered xs xs
    under : {x : A} {xs ys : List A} → Reordered xs ys → Reordered (x ∷ xs) (x ∷ ys)
    exchange : {x y : A} {xs : List A} → AreOrdered x y → Reordered (x ∷ y ∷ xs) (y ∷ x ∷ xs)
    after : {xs ys zs : List A} → Reordered xs ys → Reordered ys zs → Reordered xs zs

  module _ (order : IsTotalOrder) where
    insert-insert :
        (x y : A) (zs : List A)
        → goes_before x y ≡ true
        → goes_before y x ≡ false
        → insert_with x (insert_with y zs) ≡ insert_with y (insert_with x zs)
    insert-insert x y [] h k = rw (h, k) refl
    insert-insert x y (z ∷ zs) h k = elim (Bool-cases (goes_before x z)) [
      | inl xz ↦ elim (Bool-cases (goes_before y z)) [
        | inl yz ↦ rw (xz, yz, h, k) refl
        | inr yz ↦ rw (xz, yz, k) (rw xz refl)
      ]
      | inr xz ↦ elim (Bool-cases (goes_before y z)) [
        | inl yz ↦ let both : true ≡ false = sym (order.1 x y z h yz) ∙ xz in cc
        | inr yz ↦ rw (xz, yz) (rw xz (ap (◌∷◌ z) (insert-insert x y zs h k)))
      ]
    ]

    pub Reordered-sort : {xs ys : List A} → Reordered xs ys → sort_with xs ≡ sort_with ys
    Reordered-sort same = refl
    Reordered-sort (under {x} r) = ap (insert_with x) (Reordered-sort r)
    Reordered-sort (exchange {x} {y} {xs} (inl h)) = insert-insert x y (sort_with xs) h.0 h.1
    Reordered-sort (exchange {x} {y} {xs} (inr h)) = sym (insert-insert y x (sort_with xs) h.1 h.0)
    Reordered-sort (after r s) = Reordered-sort r ∙ Reordered-sort s
