-- ===== src/Resources.antt =====
-- packages/core/src/domain/workspace-resources.ts and the kinds of packages/core/src/domain/editor.ts.
-- The unions of number literals are numbers with the tests that narrow them.
use ecs_dev_desktop.Common.{
  ℕ, Bool, false, ◌||◌, List, [], ◌∷◌, ◌==◌, nat_eq, includes, if◌then◌else◌,
}
use ecs_dev_desktop.Result.{Result, ok, err}
use ecs_dev_desktop.Errors.{Message, invalid_resources}

pub data EditorKind : Type 0 where
  openvscode monaco terminal opencode : EditorKind

abbrev pub default_editor : EditorKind
default_editor = openvscode

abbrev pub workspace_cpu_units : List ℕ
workspace_cpu_units = 512 ∷ 1024 ∷ 2048 ∷ 4096 ∷ []

abbrev pub workspace_memory_mib : List ℕ
workspace_memory_mib = 2048 ∷ 4096 ∷ 8192 ∷ 16384 ∷ []

abbrev pub workspace_volume_gib : List ℕ
workspace_volume_gib = 8 ∷ 16 ∷ 32 ∷ 64 ∷ []

abbrev pub default_workspace_volume_gib : ℕ
default_workspace_volume_gib = 8

pub record WorkspaceResources : Type 0 where
  pub cpu_units : ℕ
  pub memory_mib : ℕ
  pub volume_gib : ℕ

abbrev tier : ℕ → ℕ → WorkspaceResources
tier cpu memory = record {
  cpu_units = cpu;
  memory_mib = memory;
  volume_gib = default_workspace_volume_gib;
}

unfoldable pub default_resources_for_editor : EditorKind → WorkspaceResources
default_resources_for_editor terminal = tier 512 2048
default_resources_for_editor monaco = tier 512 2048
default_resources_for_editor openvscode = tier 1024 4096
default_resources_for_editor opencode = tier 1024 4096

-- The `switch` on the CPU units; other values have been refused before it.
abbrev memory_fits : ℕ → ℕ → Bool
memory_fits cpu memory =
    if cpu == 512
    then memory == 2048 || memory == 4096
    else if cpu == 1024
    then memory == 2048 || (memory == 4096 || memory == 8192)
    else if cpu == 2048
    then memory == 4096 || (memory == 8192 || memory == 16384)
    else memory == 8192 || memory == 16384

unfoldable pub is_valid_workspace_resource_pair : WorkspaceResources → Bool
is_valid_workspace_resource_pair r =
    if includes workspace_cpu_units r.cpu_units
    then if includes workspace_memory_mib r.memory_mib
      then if includes workspace_volume_gib r.volume_gib
        then memory_fits r.cpu_units r.memory_mib
        else false
      else false
    else false

-- What the source throws is the error.
unfoldable pub assert_valid_workspace_resources :
    WorkspaceResources → Result WorkspaceResources Message
assert_valid_workspace_resources r =
    if is_valid_workspace_resource_pair r
    then ok r
    else err (invalid_resources r.cpu_units r.memory_mib r.volume_gib)
