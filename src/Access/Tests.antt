-- ===== src/Access/Tests.antt =====
-- Personas of concrete callers, and the workspaces that concrete paths address.
use ecs_dev_desktop.Common.{◌≡◌, ◌↔◌, refl, some, none}
use ecs_dev_desktop.Traffic.{points}
use ecs_dev_desktop.Access.{viewer, effective_role}
use ecs_dev_desktop.Access.Path.{workspace_id_from_path}
use ecs_dev_desktop.Access.Path.Addressed.{Addresses, workspace_id_from_path_iff}

no_escalation : effective_role viewer (some "admin") ≡ viewer
unfolding effective_role
no_escalation = refl

path_runs : workspace_id_from_path (points "/w/ws-4f-a/?folder=x") ≡ some (points "ws-4f-a")
unfolding workspace_id_from_path
path_runs = refl

no_traversal : workspace_id_from_path (points "/w/ws-../admin") ≡ none
unfolding workspace_id_from_path
no_traversal = refl

bare_prefix : workspace_id_from_path (points "/w/ws-/") ≡ none
unfolding workspace_id_from_path
bare_prefix = refl

workspace_id_from_path_iff_example :
    (workspace_id_from_path (points "/w/ws-4f-a/?folder=x") ≡ some (points "ws-4f-a"))
    ↔ Addresses (points "/w/ws-4f-a/?folder=x") (points "ws-4f-a")
workspace_id_from_path_iff_example =
    workspace_id_from_path_iff (points "/w/ws-4f-a/?folder=x") (points "ws-4f-a")
