-- ===== src/Access/Path.antt =====
-- packages/core/src/domain/proxy-authz.ts: the workspace that a path of the proxy addresses. A text is the
-- list of its code units.
pub mod Addressed
use ecs_dev_desktop.Common.{
  ℕ, ◌+◌, Bool, true, false, not, ◌&&◌, ◌||◌, Option, none, some, List, [], ◌∷◌, ◌==◌, nat_eq, leb,
  if◌then◌else◌,
}

abbrev pub size : List ℕ → ℕ
size [] = 0
size (c ∷ s) = size s + 1

-- `"/w/"`
abbrev pub workspace_path_prefix : List ℕ
workspace_path_prefix = 47 ∷ 119 ∷ 47 ∷ []

-- `"ws-"`
abbrev pub workspace_prefix : List ℕ
workspace_prefix = 119 ∷ 115 ∷ 45 ∷ []

-- The text after a prefix that it begins with
abbrev pub after_prefix : List ℕ → List ℕ → Option (List ℕ)
after_prefix [] s = some s
after_prefix (c ∷ prefix) [] = none
after_prefix (c ∷ prefix) (d ∷ s) =
    let rest = after_prefix prefix s in if d == c then rest else none

-- `[a-z0-9]`
abbrev pub is_label_char : ℕ → Bool
is_label_char c = (leb 97 c && leb c 122) || (leb 48 c && leb c 57)

-- `[a-z0-9-]*`
abbrev pub are_label_chars : List ℕ → Bool
are_label_chars [] = true
are_label_chars (c ∷ s) = (is_label_char c || c == 45) && are_label_chars s

abbrev pub is_label_rest : Option (List ℕ) → Bool
is_label_rest none = false
is_label_rest (some []) = false
is_label_rest (some (c ∷ s)) = is_label_char c && (are_label_chars s && leb (size s) 35)

-- `WORKSPACE_LABEL_RE`
abbrev pub is_workspace_label : List ℕ → Bool
is_workspace_label s = is_label_rest (after_prefix workspace_prefix s)

-- What `[^/?#]` excludes
abbrev pub is_delimiter : ℕ → Bool
is_delimiter c = c == 47 || (c == 63 || c == 35)

abbrev pub first_segment : List ℕ → List ℕ
first_segment [] = []
first_segment (c ∷ s) = let rest = first_segment s in if is_delimiter c then [] else c ∷ rest

-- An empty segment does not match the first expression, and it is no label.
abbrev pub labelled : Option (List ℕ) → Option (List ℕ)
labelled none = none
labelled (some s) =
    let label = first_segment s in if is_workspace_label label then some label else none

unfoldable pub workspace_id_from_path : List ℕ → Option (List ℕ)
workspace_id_from_path pathname = labelled (after_prefix workspace_path_prefix pathname)
