-- ===== src/Access/Personas.antt =====
-- A persona never gives more than the role behind it: packages/authz/src/index.ts; and who reaches a
-- workspace: packages/core/src/domain/proxy-authz.ts.
use text.Mathlib.TextEquality.{eq_iff}
use ecs_dev_desktop.Common.{
  ◌≤◌, ◌≡◌, ◌≢◌, refl, ◌⊎◌, ◌↔◌, String, Option, none, some, true, List, [], ◌∷◌, ◌++◌, Any, arith,
  string_eq,
}
use ecs_dev_desktop.Access.{
  Role, viewer, developer, admin, role_name, role_rank, is_role, effective_role, personas_for,
  define_ability_for, Action, Subject, create, update, delete, manage, workspace, all, subject_owns,
  WorkspaceAccessBySubjectInput, decide_workspace_access_by_subject,
}

is_role-name : (p : Role) → is_role (role_name p) ≡ some p
is_role-name viewer = refl
is_role-name developer = refl
is_role-name admin = refl

persona_effective :
    (real p : Role)
    → Any (λ r. r ≡ p) (personas_for real)
    → effective_role real (some (role_name p)) ≡ p
unfolding effective_role personas_for
persona_effective viewer p h = ground (arith, is_role-name p)
persona_effective _ p h = ground (arith, is_role-name p)

-- The role in effect is one of the personas of the real role, whatever is requested; and each persona
-- is in effect when its name is requested.
pub personas_exact :
    (real : Role) (requested : Option String) (p : Role)
    → Any (λ r. r ≡ effective_role real requested) (personas_for real)
      × (Any (λ r. r ≡ p) (personas_for real) → effective_role real (some (role_name p)) ≡ p)
unfolding effective_role personas_for
personas_exact real requested p = (ground arith, persona_effective real p)

effective-le :
    (real : Role) (requested : Option String)
    → role_rank (effective_role real requested) ≤ role_rank real
unfolding effective_role
effective-le real requested = ground arith

-- The rules that `real` has beyond those of `r`.
abbrev further_rules : Role → Role → List (List Action × Subject)
further_rules viewer developer = (create ∷ update ∷ delete ∷ [], workspace) ∷ []
further_rules viewer admin = (create ∷ update ∷ delete ∷ [], workspace) ∷ (manage ∷ [], all) ∷ []
further_rules developer admin = (manage ∷ [], all) ∷ []
further_rules _ _ = []

rules-prefix :
    (r real : Role)
    → role_rank r ≤ role_rank real
    → define_ability_for r ++ further_rules r real ≡ define_ability_for real
unfolding define_ability_for
rules-prefix viewer viewer h = refl
rules-prefix developer viewer h = absurd (omega arith)
rules-prefix admin viewer h = absurd (omega arith)
rules-prefix admin developer h = absurd (omega arith)
rules-prefix _ _ h = refl

-- A persona only takes rules away: the rules of the role in effect are the first of the rules of the
-- real role.
pub persona_rules_prefix :
    (real : Role) (requested : Option String)
    → (more : List (List Action × Subject)) × (define_ability_for (effective_role real requested)
          ++ more
        ≡ define_ability_for real)
persona_rules_prefix real requested = (
  further_rules (effective_role real requested) real,
  rules-prefix (effective_role real requested) real (effective-le real requested),
)

subject_owns_iff :
    (s : Option String) (owner : String)
    → (subject_owns s owner ≡ true) ↔ ((s ≡ some owner) × (owner ≢ ""))
subject_owns_iff none owner = ((λ e. absurd (cc)), (λ w. absurd (cc)))
subject_owns_iff (some s) owner = ground (arith, eq_iff s "", eq_iff s owner)

-- A caller reaches a workspace exactly when the caller is an admin, or has a subject that is not empty
-- and is the owner's.
pub access_iff :
    (input : WorkspaceAccessBySubjectInput)
    → (decide_workspace_access_by_subject input ≡ true) ↔ (
        (input.caller_is_admin ≡ true)
        ⊎ ((input.caller_subject ≡ some input.owner_id) × (input.owner_id ≢ "")))
unfolding decide_workspace_access_by_subject
access_iff input = ground (arith, subject_owns_iff input.caller_subject input.owner_id)
