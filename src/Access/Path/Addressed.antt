-- ===== src/Access/Path/Addressed.antt =====
-- packages/core/src/domain/proxy-authz.ts: a path addresses a workspace exactly if its id stands in it.
use ecs_dev_desktop.Common.{
  ℕ, ◌≡◌, ◌↔◌, inl, inr, refl, sym, ap, ◌∙◌, Bool, true, false, not, ◌&&◌, ◌||◌, Option, none, some,
  List, [], ◌∷◌, ◌++◌, ◌==◌, nat_eq, leb, if◌then◌else◌, arith, Bool-cases,
}
use ecs_dev_desktop.Access.Path.{
  workspace_path_prefix, workspace_prefix, after_prefix, is_label_char, are_label_chars,
  is_label_rest, is_workspace_label, is_delimiter, first_segment, labelled, workspace_id_from_path,
  size,
}

-- The text is empty or begins with a delimiter.
abbrev pub EndsSegment : List ℕ → Type 0
EndsSegment [] = Unit
EndsSegment (c ∷ s) = is_delimiter c ≡ true

abbrev has_no_delimiter : List ℕ → Bool
has_no_delimiter [] = true
has_no_delimiter (c ∷ s) = not (is_delimiter c) && has_no_delimiter s

after_prefix-append : (p s : List ℕ) → after_prefix p (p ++ s) ≡ some s
after_prefix-append [] s = refl
after_prefix-append (c ∷ p) s = rw ((nat_eq.test_iff c c).1 refl) (after_prefix-append p s)

after_prefix-exact : (p s rest : List ℕ) → after_prefix p s ≡ some rest → s ≡ p ++ rest
after_prefix-exact [] s rest h = some_injective h
  where
    some_injective : {a b : List ℕ} → some a ≡ some b → a ≡ b
    some_injective q = cc
after_prefix-exact (c ∷ p) [] rest h = cc
after_prefix-exact (c ∷ p) (d ∷ s) rest h = elim (Bool-cases (d == c)) [
  | inl e ↦
      let tail =
        after_prefix-exact p s rest (sym (ap (λ b. if b then after_prefix p s else none) e) ∙ h) in
      cc ((nat_eq.test_iff d c).0 e, tail)
  | inr e ↦
      let absent : none ≡ some rest = sym (ap (λ b. if b then after_prefix p s else none) e) ∙ h in
      cc
]

both_true : (a b : Bool) → (a && b) ≡ true → (a ≡ true) × (b ≡ true)
both_true true b h = (refl, h)
both_true false b h = cc

label_char-clear : (c : ℕ) → (is_label_char c || c == 45) ≡ true → not (is_delimiter c) ≡ true
label_char-clear c h = ground arith

label_chars-clear : (s : List ℕ) → are_label_chars s ≡ true → has_no_delimiter s ≡ true
label_chars-clear [] h = refl
label_chars-clear (c ∷ s) h =
    let both = both_true (is_label_char c || c == 45) (are_label_chars s) h in
    rw (label_char-clear c both.0) (label_chars-clear s both.1)

first_segment-append :
    (label rest : List ℕ)
    → has_no_delimiter label ≡ true
    → EndsSegment rest
    → first_segment (label ++ rest) ≡ label
first_segment-append [] [] h k = refl
first_segment-append [] (c ∷ rest) h k = rw k refl
first_segment-append (c ∷ label) rest h k = elim (Bool-cases (is_delimiter c)) [
  | inl e ↦
      let both = both_true (not (is_delimiter c)) (has_no_delimiter label) h in
      let clash : false ≡ true = sym (ap not e) ∙ both.0 in cc
  | inr e ↦
      let both = both_true (not (is_delimiter c)) (has_no_delimiter label) h in
      rw e (ap (◌∷◌ c) (first_segment-append label rest both.1 k))
]

abbrev remainder : List ℕ → List ℕ
remainder [] = []
remainder (c ∷ s) = let rest = remainder s in if is_delimiter c then c ∷ s else rest

segment_and_remainder : (s : List ℕ) → s ≡ first_segment s ++ remainder s
segment_and_remainder [] = refl
segment_and_remainder (c ∷ s) = elim (Bool-cases (is_delimiter c)) [
  | inl e ↦ rw e refl
  | inr e ↦ rw e (ap (◌∷◌ c) (segment_and_remainder s))
]

remainder-EndsSegment : (s : List ℕ) → EndsSegment (remainder s)
remainder-EndsSegment [] = tt
remainder-EndsSegment (c ∷ s) = elim (Bool-cases (is_delimiter c)) [
  | inl e ↦ rw e e
  | inr e ↦ rw e (remainder-EndsSegment s)
]

-- The id is a valid label, which stands after the prefix and before a delimiter or the end.
abbrev pub Addresses : List ℕ → List ℕ → Type 0
Addresses path id =
    (is_workspace_label id ≡ true)
    × ((rest : List ℕ) × EndsSegment rest × (path ≡ workspace_path_prefix ++ (id ++ rest)))

label_rest-clear : (s : List ℕ) → is_label_rest (some s) ≡ true → has_no_delimiter s ≡ true
label_rest-clear [] h = cc
label_rest-clear (c ∷ s) h =
    let both = both_true (is_label_char c) (are_label_chars s && leb (size s) 35) h in
    let chars = both_true (are_label_chars s) (leb (size s) 35) both.1 in
    label_chars-clear (c ∷ s) (ap (λ b. (b || c == 45) && are_label_chars s) both.0 ∙ chars.0)

label-clear :
    (id : List ℕ) (o : Option (List ℕ))
    → after_prefix workspace_prefix id ≡ o
    → is_label_rest o ≡ true
    → has_no_delimiter id ≡ true
label-clear id none q h = cc
label-clear id (some s) q h =
    ap has_no_delimiter (after_prefix-exact workspace_prefix id s q) ∙ label_rest-clear s h

addressed : (path id : List ℕ) → Addresses path id → workspace_id_from_path path ≡ some id
unfolding workspace_id_from_path
addressed path id (h, (rest, ends, q)) =
    ap (λ p. labelled (after_prefix workspace_path_prefix p)) q
    ∙ ap labelled (after_prefix-append workspace_path_prefix (id ++ rest))
    ∙ ap (λ l. if is_workspace_label l then some l else none)
        (first_segment-append id rest (label-clear id (after_prefix workspace_prefix id) refl h)
          ends)
    ∙ ap (λ b. if b then some id else none) h

labelled-Addresses :
    (path id : List ℕ) (o : Option (List ℕ))
    → after_prefix workspace_path_prefix path ≡ o
    → labelled o ≡ some id
    → Addresses path id
labelled-Addresses path id none q h = cc
labelled-Addresses path id (some s) q h = elim (Bool-cases (is_workspace_label (first_segment s))) [
  | inl e ↦
      let found : some (first_segment s) ≡ some id =
        sym (ap (λ b. if b then some (first_segment s) else none) e) ∙ h in
      let same : first_segment s ≡ id = cc in
      (
        sym (ap is_workspace_label same) ∙ e,
        (
          remainder s,
          remainder-EndsSegment s,
          after_prefix-exact workspace_path_prefix path s q
              ∙ ap (λ t. workspace_path_prefix ++ t)
                  (segment_and_remainder s ∙ ap (λ l. l ++ remainder s) same),
        ),
      )
  | inr e ↦
      let absent : none ≡ some id =
        sym (ap (λ b. if b then some (first_segment s) else none) e) ∙ h in
      cc
]

-- A path gives the id of a workspace exactly if the id is a valid label and the path is the prefix, the
-- id, and then nothing or a text that begins with a slash, a question mark or a number sign.
pub workspace_id_from_path_iff :
    (path id : List ℕ) → (workspace_id_from_path path ≡ some id) ↔ Addresses path id
unfolding workspace_id_from_path
workspace_id_from_path_iff path id =
    (labelled-Addresses path id (after_prefix workspace_path_prefix path) refl, addressed path id)
