-- ===== src/Catalog/Entries.antt =====
-- packages/core/src/domain/base-image-catalog.ts: what every entry of the catalog keeps.
use ecs_dev_desktop.Common.{
  String, false, ◌==◌, ◌≡◌, refl, ap, ◌∙◌, string_eq, Bool-cases, inl, inr, Option, none, some,
  List, [], ◌∷◌, or_else,
}
use ecs_dev_desktop.Result.{Result, ok, err}
use ecs_dev_desktop.Catalog.{
  BaseImageEntry, ProvisionBaseImageParams, BaseImagePatch, CatalogError, trim,
  provision_base_image, is_blank, patched_name, patched_labels, apply_base_image_patch,
}
use ecs_dev_desktop.Catalog.Trimmed.{trim_idem}
use ecs_dev_desktop.Catalog.Labels.{AreNew, normalize_labels-AreNew, AreNew-normalize_labels}

-- The name is trimmed and not blank, the reference is not blank, and the labels are trimmed, not blank
-- and distinct.
abbrev pub IsNormalized : BaseImageEntry → Type 0
IsNormalized e =
    (trim e.name ≡ e.name)
    × ((e.name == "") ≡ false)
    × ((trim e.image == "") ≡ false)
    × AreNew [] e.tags
    × AreNew [] e.tools

-- A refused patch leaves the entry as it was.
abbrev pub kept : BaseImageEntry → Result BaseImageEntry CatalogError → BaseImageEntry
kept entry (ok next) = next
kept entry (err x) = entry

abbrev pub patched_all : BaseImageEntry → List BaseImagePatch → BaseImageEntry
patched_all entry [] = entry
patched_all entry (patch ∷ patches) =
    patched_all (kept entry (apply_base_image_patch entry patch)) patches

abbrev pub AfterPatches : List BaseImagePatch → Result BaseImageEntry CatalogError → Type 0
AfterPatches patches (ok entry) = IsNormalized (patched_all entry patches)
AfterPatches patches (err x) = Unit

name-Normalized :
    (o : Option String) (name : String)
    → is_blank o ≡ false
    → (trim name ≡ name) × ((name == "") ≡ false)
    → (trim (patched_name o name) ≡ patched_name o name) × ((patched_name o name == "") ≡ false)
name-Normalized none name h k = k
name-Normalized (some s) name h k = (trim_idem s, h)

image-Normalized :
    (o : Option String) (image : String)
    → is_blank o ≡ false
    → (trim image == "") ≡ false
    → (trim (or_else o image) == "") ≡ false
image-Normalized none image h k = k
image-Normalized (some s) image h k = h

labels-AreNew :
    (o : Option (List String)) (labels : List String)
    → AreNew [] labels
    → AreNew [] (patched_labels o labels)
labels-AreNew none labels h = h
labels-AreNew (some ls) labels h = normalize_labels-AreNew (some ls)

patch-IsNormalized :
    (entry : BaseImageEntry) (patch : BaseImagePatch)
    → IsNormalized entry
    → IsNormalized (kept entry (apply_base_image_patch entry patch))
unfolding apply_base_image_patch
patch-IsNormalized entry patch (n, b, i, tags, tools) = elim (Bool-cases (is_blank patch.name)) [
  | inl e ↦ rw e (n, b, i, tags, tools)
  | inr e ↦ elim (Bool-cases (is_blank patch.image)) [
    | inl g ↦ rw (e, g) (n, b, i, tags, tools)
    | inr g ↦
        let (n', b') = name-Normalized patch.name entry.name e (n, b) in
        rw (e, g)
          (
            n',
            b',
            image-Normalized patch.image entry.image g i,
            labels-AreNew patch.tags entry.tags tags,
            labels-AreNew patch.tools entry.tools tools,
          )
  ]
]

patches-IsNormalized :
    (patches : List BaseImagePatch) (entry : BaseImageEntry)
    → IsNormalized entry
    → IsNormalized (patched_all entry patches)
patches-IsNormalized [] entry h = h
patches-IsNormalized (patch ∷ patches) entry h =
    patches-IsNormalized patches (kept entry (apply_base_image_patch entry patch))
      (patch-IsNormalized entry patch h)

-- An entry that was provisioned and then patched any number of times, where a patch that is refused
-- leaves it, has a trimmed name that is not blank, a reference that is not blank, and tags and tools that
-- are trimmed, not blank and without duplicates.
pub entry_stays_normalized :
    (params : ProvisionBaseImageParams) (patches : List BaseImagePatch)
    → AfterPatches patches (provision_base_image params)
unfolding provision_base_image
entry_stays_normalized params patches = elim (Bool-cases (trim params.name == "")) [
  | inl e ↦ rw e tt
  | inr e ↦ elim (Bool-cases (trim params.image == "")) [
    | inl g ↦ rw (e, g) tt
    | inr g ↦
        rw (e, g)
          (patches-IsNormalized patches _ (
            trim_idem params.name,
            e,
            g,
            normalize_labels-AreNew params.tags,
            normalize_labels-AreNew params.tools,
          ))
  ]
]

-- The patch that sets every field to what the entry has.
abbrev pub as_patch : BaseImageEntry → BaseImagePatch
as_patch e = record {
  name = some e.name;
  image = some e.image;
  description = some e.description;
  tags = some e.tags;
  tools = some e.tools;
  enabled = some e.enabled;
  editor = some e.editor;
}

-- An entry that is normalized is unchanged by the patch that sets every field to what it has.
pub own_patch_changes_nothing :
    (e : BaseImageEntry) → IsNormalized e → apply_base_image_patch e (as_patch e) ≡ ok e
unfolding apply_base_image_patch
own_patch_changes_nothing e (n, b, i, tags, tools) =
    let name : (trim e.name == "") ≡ false = ap (λ s. s == "") n ∙ b in
    rw (name, i, n, AreNew-normalize_labels e.tags tags, AreNew-normalize_labels e.tools tools) refl
