-- ===== src/Access.antt =====
-- packages/authz/src/index.ts (the roles and the rules that a role gives), the quota gate of
-- packages/core/src/domain/quota.ts, and the access decision of packages/core/src/domain/proxy-authz.ts.
mod Tests
pub mod Personas
pub mod Path
use ecs_dev_desktop.Common.{
  ℕ, String, Option, none, some, Bool, true, false, ◌&&◌, ◌||◌, List, [], ◌∷◌, ◌++◌, ltb, leb, ◌==◌,
  string_eq, filter, if◌then◌else◌,
}

pub data Role : Type 0 where
  viewer developer admin : Role

abbrev pub roles : List Role
roles = viewer ∷ developer ∷ admin ∷ []

abbrev pub role_name : Role → String
role_name viewer = "viewer"
role_name developer = "developer"
role_name admin = "admin"

-- `isRole` with the role that the value is.
abbrev pub is_role : String → Option Role
is_role value =
    if value == "viewer"
    then some viewer
    else if value == "developer"
    then some developer
    else if value == "admin"
    then some admin
    else none

abbrev pub role_rank : Role → ℕ
role_rank viewer = 0
role_rank developer = 1
role_rank admin = 2

abbrev clamp : Role → Option Role → Role
clamp real none = real
clamp real (some r) = if leb (role_rank r) (role_rank real) then r else real

unfoldable pub effective_role : Role → Option String → Role
effective_role real none = real
effective_role real (some requested) = clamp real (is_role requested)

unfoldable pub personas_for : Role → List Role
personas_for real = filter (λ r. leb (role_rank r) (role_rank real)) roles

pub data Action : Type 0 where
  create read update delete manage : Action

pub data Subject : Type 0 where
  workspace user base_image all : Subject

-- The calls of `can` that `defineAbilityFor` makes on the ability builder, in order.
unfoldable pub define_ability_for : Role → List (List Action × Subject)
define_ability_for role =
    ((read ∷ [], base_image) ∷ (read ∷ [], workspace) ∷ [])
    ++ (elim role [
      | viewer ↦ []
      | developer ↦ (create ∷ update ∷ delete ∷ [], workspace) ∷ []
      | admin ↦ (create ∷ update ∷ delete ∷ [], workspace) ∷ []
    ]
        ++ elim role [ admin ↦ (manage ∷ [], all) ∷ [] | _ ↦ [] ])

unfoldable pub within_workspace_quota : ℕ → Option ℕ → Bool
within_workspace_quota count none = true
within_workspace_quota count (some limit) = ltb count limit

pub record WorkspaceAccessBySubjectInput : Type 0 where
  pub caller_subject : Option String
  pub caller_is_admin : Bool
  pub owner_id : String

abbrev subject_owns : Option String → String → Bool
subject_owns none owner = false
subject_owns (some subject) owner = if subject == "" then false else subject == owner

unfoldable pub decide_workspace_access_by_subject : WorkspaceAccessBySubjectInput → Bool
decide_workspace_access_by_subject input =
    if input.caller_is_admin then true else subject_owns input.caller_subject input.owner_id
