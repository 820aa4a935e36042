-- ===== src/Service/Patch.antt =====
-- What `persistTransition` of packages/control-plane/src/workspace-service.ts writes over the stored
-- item: `toWorkspaceDetail` of packages/control-plane/src/dto.ts lists the fields that are set, and the
-- `clearable` list those that are removed when they are undefined. Every other field keeps its value.
use ecs_dev_desktop.Common.{◌≡◌, ◌⊎◌, inl, inr, none, or_option, arith}
use ecs_dev_desktop.Result.{ok}
use ecs_dev_desktop.States.{IsoTimestamp}
use ecs_dev_desktop.Workspace.{Workspace}
use ecs_dev_desktop.Workspace.Changes.{Change, apply, undeleted}

-- `patch({ id }).set(next).remove(cleared)` on the stored item `old`. The detail has no
-- `shareEnabledAt`, so it is never set.
unfoldable pub patched : Workspace → Workspace → Workspace
patched next old = record next {
  owner_email = or_option next.owner_email old.owner_email;
  owner_role = or_option next.owner_role old.owner_role;
  repo_url = or_option next.repo_url old.repo_url;
  editor = or_option next.editor old.editor;
  desired_state = or_option next.desired_state old.desired_state;
  delete_requested_at = or_option next.delete_requested_at old.delete_requested_at;
  snapshot_interval_ms = or_option next.snapshot_interval_ms old.snapshot_interval_ms;
  disk_used_bytes = or_option next.disk_used_bytes old.disk_used_bytes;
  disk_total_bytes = or_option next.disk_total_bytes old.disk_total_bytes;
  sessions = or_option next.sessions old.sessions;
  sessions_at = or_option next.sessions_at old.sessions_at;
  terminated_at = or_option next.terminated_at old.terminated_at;
  share_enabled_at = old.share_enabled_at;
}

abbrev pub IsUndelete : Change → Type 0
IsUndelete (undeleted at) = Unit
IsUndelete _ = ⊥

-- Each field that the write does not remove is set by the next record, or was unset before.
record Covers (old next : Workspace) : Type 0 where
  owner_email : or_option next.owner_email old.owner_email ≡ next.owner_email
  owner_role : or_option next.owner_role old.owner_role ≡ next.owner_role
  repo_url : or_option next.repo_url old.repo_url ≡ next.repo_url
  editor : or_option next.editor old.editor ≡ next.editor
  desired_state : or_option next.desired_state old.desired_state ≡ next.desired_state
  delete_requested_at :
      or_option next.delete_requested_at old.delete_requested_at ≡ next.delete_requested_at
  snapshot_interval_ms :
      or_option next.snapshot_interval_ms old.snapshot_interval_ms ≡ next.snapshot_interval_ms
  disk_used_bytes : or_option next.disk_used_bytes old.disk_used_bytes ≡ next.disk_used_bytes
  disk_total_bytes : or_option next.disk_total_bytes old.disk_total_bytes ≡ next.disk_total_bytes
  sessions : or_option next.sessions old.sessions ≡ next.sessions
  sessions_at : or_option next.sessions_at old.sessions_at ≡ next.sessions_at
  terminated_at : or_option next.terminated_at old.terminated_at ≡ next.terminated_at

apply-Covers :
    (ws : Workspace) (c : Change) (next : Workspace)
    → apply ws c ≡ ok next
    → IsUndelete c ⊎ Covers ws next
unfolding apply
apply-Covers ws (undeleted at) next h = inl tt
apply-Covers ws _ next h = inr (ground arith)

patched-Covers :
    (old next : Workspace)
    → Covers old next
    → patched next old ≡ record next { share_enabled_at = old.share_enabled_at }
unfolding patched
patched-Covers old next c = λ i. record next {
  owner_email = c.owner_email i;
  owner_role = c.owner_role i;
  repo_url = c.repo_url i;
  editor = c.editor i;
  desired_state = c.desired_state i;
  delete_requested_at = c.delete_requested_at i;
  snapshot_interval_ms = c.snapshot_interval_ms i;
  disk_used_bytes = c.disk_used_bytes i;
  disk_total_bytes = c.disk_total_bytes i;
  sessions = c.sessions i;
  sessions_at = c.sessions_at i;
  terminated_at = c.terminated_at i;
  share_enabled_at = old.share_enabled_at;
}

-- The list of fields to remove is complete for every change but an undelete: what is stored after the
-- write is the next record itself, but for the time of the last share toggle, which is not stored.
pub patched-exact :
    (ws : Workspace) (c : Change) (next : Workspace)
    → apply ws c ≡ ok next
    → IsUndelete c ⊎ (patched next ws ≡ record next { share_enabled_at = ws.share_enabled_at })
patched-exact ws c next h = elim (apply-Covers ws c next h) [
  | inl u ↦ inl u
  | inr k ↦ inr (patched-Covers ws next k)
]

-- An undelete that is written this way leaves the end of the deleted workspace and the request for its
-- deletion in the stored record, though the next record has neither.
pub undelete_keeps_dates :
    (ws : Workspace) (at : IsoTimestamp) (next : Workspace)
    → apply ws (undeleted at) ≡ ok next
    → (next.terminated_at ≡ none)
      × (next.delete_requested_at ≡ none)
      × ((patched next ws).terminated_at ≡ ws.terminated_at)
      × ((patched next ws).delete_requested_at ≡ ws.delete_requested_at)
unfolding apply patched
undelete_keeps_dates ws at next h = ground arith
