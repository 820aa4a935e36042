-- ===== src/Catalog/Trimmed.antt =====
-- packages/core/src/domain/base-image-catalog.ts: to trim a text twice is to trim it once.
use Prim.Native.Char.{code}
use Prim.Native.String.{◌∷◌ as cons_char, [] as empty_string}
use ecs_dev_desktop.Common.{
  String, Bool, true, false, ◌&&◌, ◌==◌, ◌≡◌, refl, ap, ◌∙◌, string_eq, Bool-cases, inl, inr,
}
use ecs_dev_desktop.Catalog.{is_space, trim_start, trim_end, trim}

-- The text is empty or begins with a character that is no space.
abbrev StartsWell : String → Type 0
StartsWell empty_string = Unit
StartsWell (cons_char c s) = is_space (code c) ≡ false

trim_start-StartsWell : (s : String) → StartsWell (trim_start s)
unfolding trim_start
trim_start-StartsWell empty_string = tt
trim_start-StartsWell (cons_char c s) = elim (Bool-cases (is_space (code c))) [
  | inl e ↦ rw e (trim_start-StartsWell s)
  | inr e ↦ rw e e
]

StartsWell-trim_start : (s : String) → StartsWell s → trim_start s ≡ s
unfolding trim_start
StartsWell-trim_start empty_string h = refl
StartsWell-trim_start (cons_char c s) h = rw h refl

and_false : (a : Bool) → (a && false) ≡ false
and_false true = refl
and_false false = refl

trim_end-StartsWell : (s : String) → StartsWell s → StartsWell (trim_end s)
unfolding trim_end
trim_end-StartsWell empty_string h = tt
trim_end-StartsWell (cons_char c s) h = rw (h, and_false (trim_end s == "")) h

trim_end_idem : (s : String) → trim_end (trim_end s) ≡ trim_end s
unfolding trim_end
trim_end_idem empty_string = refl
trim_end_idem (cons_char c s) = elim (Bool-cases (trim_end s == "" && is_space (code c))) [
  | inl e ↦ rw e refl
  | inr e ↦ rw (e, trim_end_idem s, e) refl
]

pub trim_idem : (s : String) → trim (trim s) ≡ trim s
unfolding trim
trim_idem s =
    ap trim_end (
      StartsWell-trim_start (trim_end (trim_start s))
        (trim_end-StartsWell (trim_start s) (trim_start-StartsWell s)))
    ∙ trim_end_idem (trim_start s)
