-- ===== src/Catalog/Labels.antt =====
-- packages/core/src/domain/base-image-catalog.ts: normalized labels are trimmed, not blank and distinct.
use ecs_dev_desktop.Common.{
  String, false, ◌==◌, ◌≡◌, refl, sym, ap, subst, ◌∙◌, string_eq, Bool-cases, inl, inr, Option,
  some, List, [], ◌∷◌, ◌++◌, includes, or_else,
}
use ecs_dev_desktop.Catalog.{trim, add_label, normalize_from, normalize_labels}
use ecs_dev_desktop.Catalog.Trimmed.{trim_idem}

-- Labels that can be appended to a list one after the other: trimmed, not blank, and new.
abbrev pub AreNew : List String → List String → Type 0
AreNew seen [] = Unit
AreNew seen (l ∷ ls) =
    (trim l ≡ l) × ((l == "") ≡ false) × (includes seen l ≡ false) × AreNew (seen ++ l ∷ []) ls

append_assoc : (xs ys zs : List String) → (xs ++ ys) ++ zs ≡ xs ++ (ys ++ zs)
append_assoc [] ys zs = refl
append_assoc (x ∷ xs) ys zs = ap (◌∷◌ x) (append_assoc xs ys zs)

append_nil : (xs : List String) → xs ≡ xs ++ []
append_nil [] = refl
append_nil (x ∷ xs) = ap (◌∷◌ x) (append_nil xs)

AreNew-snoc :
    (seen xs : List String) (l : String)
    → AreNew seen xs
    → trim l ≡ l
    → (l == "") ≡ false
    → includes (seen ++ xs) l ≡ false
    → AreNew seen (xs ++ l ∷ [])
AreNew-snoc seen [] l h t b i =
    (t, b, subst (λ ys. includes ys l ≡ false) (sym (append_nil seen)) i, tt)
AreNew-snoc seen (x ∷ xs) l (p, q, r, h) t b i = (
  p,
  q,
  r,
  AreNew-snoc (seen ++ x ∷ []) xs l h t b
      (subst (λ ys. includes ys l ≡ false) (sym (append_assoc seen (x ∷ []) xs)) i),
)

add_label-AreNew :
    (l : String) (normalized : List String)
    → AreNew [] normalized
    → trim l ≡ l
    → AreNew [] (add_label l normalized)
add_label-AreNew l normalized h t = elim (Bool-cases (l == "")) [
  | inl e ↦ rw e h
  | inr e ↦ elim (Bool-cases (includes normalized l)) [
    | inl i ↦ rw (e, i) h
    | inr i ↦ rw (e, i) (AreNew-snoc [] normalized l h t e i)
  ]
]

normalize_from-AreNew :
    (normalized ls : List String) → AreNew [] normalized → AreNew [] (normalize_from normalized ls)
normalize_from-AreNew normalized [] h = h
normalize_from-AreNew normalized (l ∷ ls) h =
    normalize_from-AreNew (add_label (trim l) normalized) ls
      (add_label-AreNew (trim l) normalized h (trim_idem l))

AreNew-normalize_from :
    (seen ls : List String) → AreNew seen ls → normalize_from seen ls ≡ seen ++ ls
AreNew-normalize_from seen [] h = append_nil seen
AreNew-normalize_from seen (l ∷ ls) (t, b, i, h) =
    rw (t, b, i) (AreNew-normalize_from (seen ++ l ∷ []) ls h ∙ append_assoc seen (l ∷ []) ls)

pub normalize_labels-AreNew : (ls : Option (List String)) → AreNew [] (normalize_labels ls)
unfolding normalize_labels
normalize_labels-AreNew ls = normalize_from-AreNew [] (or_else ls []) tt

pub AreNew-normalize_labels : (ls : List String) → AreNew [] ls → normalize_labels (some ls) ≡ ls
unfolding normalize_labels
AreNew-normalize_labels ls h = AreNew-normalize_from [] ls h
