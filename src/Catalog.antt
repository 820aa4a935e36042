-- ===== src/Catalog.antt =====
-- packages/core/src/domain/base-image-catalog.ts: the curated images that a workspace is launched from.
-- An exception is the error of a result.
mod Tests
pub mod Labels
pub mod Trimmed
pub mod Entries
use Prim.Native.Char.{code}
use Prim.Native.String.{◌∷◌ as cons_char, [] as empty_string}
use ecs_dev_desktop.Common.{
  ℕ, String, Bool, true, false, not, ◌&&◌, ◌||◌, Option, none, some, List, [], ◌∷◌, ◌++◌, ◌==◌,
  nat_eq, string_eq, leb, includes, or_else, if◌then◌else◌,
}
use ecs_dev_desktop.Result.{Result, ok, err}
use ecs_dev_desktop.States.{BaseImage, IsoTimestamp}
use ecs_dev_desktop.Resources.{EditorKind, default_editor}

pub record BaseImageEntry : Type 0 where
  pub id : String
  pub name : String
  pub image : BaseImage
  pub description : String
  pub tags : List String
  pub tools : List String
  pub enabled : Bool
  pub editor : EditorKind
  pub created_at : IsoTimestamp

pub record ProvisionBaseImageParams : Type 0 where
  pub id : String
  pub name : String
  pub image : BaseImage
  pub description : Option String
  pub tags : Option (List String)
  pub tools : Option (List String)
  pub enabled : Option Bool
  pub editor : Option EditorKind
  pub at : IsoTimestamp

pub record BaseImagePatch : Type 0 where
  pub name : Option String
  pub image : Option BaseImage
  pub description : Option String
  pub tags : Option (List String)
  pub tools : Option (List String)
  pub enabled : Option Bool
  pub editor : Option EditorKind

pub data CatalogError : Type 0 where
  name_required reference_required name_blank reference_blank : CatalogError

-- The white space and the line ends that `trim` takes off.
abbrev pub is_space : ℕ → Bool
is_space c =
    (leb 9 c && leb c 13)
    || includes (32 ∷ 160 ∷ 5760 ∷ 8232 ∷ 8233 ∷ 8239 ∷ 8287 ∷ 12288 ∷ 65279 ∷ []) c
    || (leb 8192 c && leb c 8202)

unfoldable pub trim_start : String → String
trim_start empty_string = ""
trim_start (cons_char c s) =
    let rest = trim_start s in if is_space (code c) then rest else cons_char c s

unfoldable pub trim_end : String → String
trim_end empty_string = ""
trim_end (cons_char c s) =
    let rest = trim_end s in if rest == "" && is_space (code c) then "" else cons_char c rest

-- `s.trim()`
unfoldable pub trim : String → String
trim s = trim_end (trim_start s)

-- The set `seen` has the members of the list so far.
abbrev pub add_label : String → List String → List String
add_label trimmed normalized =
    if trimmed == "" || includes normalized trimmed then normalized else normalized ++ trimmed ∷ []

abbrev pub normalize_from : List String → List String → List String
normalize_from normalized [] = normalized
normalize_from normalized (label ∷ labels) =
    normalize_from (add_label (trim label) normalized) labels

unfoldable pub normalize_labels : Option (List String) → List String
normalize_labels labels = normalize_from [] (or_else labels [])

unfoldable pub provision_base_image : ProvisionBaseImageParams → Result BaseImageEntry CatalogError
provision_base_image params =
    if trim params.name == ""
    then err name_required
    else (if trim params.image == ""
        then err reference_required
        else ok (record {
          id = params.id;
          name = trim params.name;
          image = params.image;
          description = or_else params.description "";
          tags = normalize_labels params.tags;
          tools = normalize_labels params.tools;
          enabled = or_else params.enabled true;
          editor = or_else params.editor default_editor;
          created_at = params.at;
        }))

-- `value?.trim() === ""`
abbrev pub is_blank : Option String → Bool
is_blank none = false
is_blank (some s) = trim s == ""

abbrev pub patched_name : Option String → String → String
patched_name none name = name
patched_name (some s) name = trim s

abbrev pub patched_labels : Option (List String) → List String → List String
patched_labels none labels = labels
patched_labels (some ls) labels = normalize_labels (some ls)

unfoldable pub apply_base_image_patch :
    BaseImageEntry → BaseImagePatch → Result BaseImageEntry CatalogError
apply_base_image_patch entry patch =
    if is_blank patch.name
    then err name_blank
    else (if is_blank patch.image
        then err reference_blank
        else ok (record entry {
          name = patched_name patch.name entry.name;
          image = or_else patch.image entry.image;
          description = or_else patch.description entry.description;
          tags = patched_labels patch.tags entry.tags;
          tools = patched_labels patch.tools entry.tools;
          enabled = or_else patch.enabled entry.enabled;
          editor = or_else patch.editor entry.editor;
        }))

unfoldable pub find_enabled_image : List BaseImageEntry → BaseImage → Option BaseImageEntry
find_enabled_image [] image = none
find_enabled_image (entry ∷ catalog) image =
    let rest = find_enabled_image catalog image in
    if entry.enabled && entry.image == image then some entry else rest
