-- ===== src/Catalog/Tests.antt =====
-- The catalog of images at concrete entries.
use ecs_dev_desktop.Common.{true, false, none, some, [], ◌∷◌, ◌≡◌, refl}
use ecs_dev_desktop.Result.{ok}
use ecs_dev_desktop.Resources.{default_editor}
use ecs_dev_desktop.Catalog.{
  BaseImageEntry, ProvisionBaseImageParams, BaseImagePatch, trim, trim_start, trim_end,
  normalize_labels, provision_base_image, apply_base_image_patch, find_enabled_image,
}
use ecs_dev_desktop.Catalog.Entries.{
  AfterPatches, as_patch, entry_stays_normalized, own_patch_changes_nothing,
}

abbrev node : BaseImageEntry
node = record {
  id = "img-1";
  name = "Node 20";
  image = "ecr/node:20";
  description = "";
  tags = "small" ∷ "typescript" ∷ [];
  tools = [];
  enabled = true;
  editor = default_editor;
  created_at = 0;
}

abbrev request : ProvisionBaseImageParams
request = record {
  id = "img-1";
  name = "  Node 20 ";
  image = "ecr/node:20";
  description = none;
  tags = some (" small" ∷ "typescript" ∷ "small " ∷ " " ∷ []);
  tools = none;
  enabled = none;
  editor = none;
  at = 0;
}

abbrev untouched : BaseImagePatch
untouched = record {
  name = none;
  image = none;
  description = none;
  tags = none;
  tools = none;
  enabled = none;
  editor = none;
}

provision_trims : provision_base_image request ≡ ok node
unfolding provision_base_image trim trim_start trim_end normalize_labels
provision_trims = refl

disabled_is_not_found :
    find_enabled_image (record node { enabled = false } ∷ []) "ecr/node:20" ≡ none
unfolding find_enabled_image
disabled_is_not_found = refl

entry_stays_normalized_example :
    AfterPatches
      (record untouched { name = some " " } ∷ record untouched { name = some " Node " } ∷ [])
      (provision_base_image request)
entry_stays_normalized_example =
    entry_stays_normalized request
      (record untouched { name = some " " } ∷ record untouched { name = some " Node " } ∷ [])

own_patch_changes_nothing_example : apply_base_image_patch node (as_patch node) ≡ ok node
unfolding trim trim_start trim_end
own_patch_changes_nothing_example =
    own_patch_changes_nothing node
      (refl, refl, refl, (refl, refl, refl, (refl, refl, refl, tt)), tt)
