-- ===== src/Workspace/Changes/Snapshots.antt =====
-- A workspace does not lose its data: what becomes of the snapshot reference, and the way back from
-- a deletion.
use ecs_dev_desktop.Common.{
  ◌≡◌, ◌⊎◌, inl, inr, true, none, some, List, [], ◌∷◌, is_some, arith, Any, Option-cases,
}
use ecs_dev_desktop.Result.{ok, err, Result-cases}
use ecs_dev_desktop.Errors.{conflict, no_retained_snapshot}
use ecs_dev_desktop.States.{IsoTimestamp, stopped, state_eq, request_delete}
use ecs_dev_desktop.Lifecycle.{can}
use ecs_dev_desktop.Workspace.{Workspace, present}
use ecs_dev_desktop.Workspace.Changes.{
  Change, apply, apply_all, stopping_marked, deleting_marked, terminated_marked, undeleted,
  snapshot_lost,
}

abbrev pub IsLoss : Change → Type 0
IsLoss (snapshot_lost at) = Unit
IsLoss _ = ⊥

apply-has_snapshot :
    (ws : Workspace) (c : Change) (next : Workspace)
    → apply ws c ≡ ok next
    → is_some ws.latest_snapshot_id ≡ true
    → IsLoss c ⊎ (is_some next.latest_snapshot_id ≡ true)
unfolding apply
apply-has_snapshot ws (stopping_marked at by) next h k = ground arith
apply-has_snapshot ws _ next h k = ground arith

-- Once a workspace has a snapshot to restore from, it has one after any history of accepted changes,
-- unless the history reports that the snapshot is gone from storage.
pub apply_all-has_snapshot :
    (ws : Workspace) (cs : List Change) (next : Workspace)
    → apply_all ws cs ≡ ok next
    → is_some ws.latest_snapshot_id ≡ true
    → Any IsLoss cs ⊎ (is_some next.latest_snapshot_id ≡ true)
unfolding apply_all
apply_all-has_snapshot ws [] next h k = inr (ground arith)
apply_all-has_snapshot ws (c ∷ cs) next h k = elim (Result-cases (apply ws c)) [
  | inl (w, e) ↦ elim (apply-has_snapshot ws c w e k) [
    | inl l ↦ inl (inl l)
    | inr s ↦ elim (apply_all-has_snapshot w cs next (rw (e, apply_all) at h) s) [
      | inl a ↦ inl (inr a)
      | inr t ↦ inr t
    ]
  ]
  | inr (x, e) ↦ let refused : err x ≡ ok next = rw (e, apply_all) at h in cc
]

abbrev pub delete_and_undelete : IsoTimestamp → IsoTimestamp → IsoTimestamp → List Change
delete_and_undelete asked ended back =
    deleting_marked asked ∷ terminated_marked ended ∷ undeleted back ∷ []

-- Back from the deletion: stopped, wanted, with the snapshot of before and no runtime resource, no
-- share and no trace of the deletion.
pub record IsRestored (a b : Workspace) : Type 0 where
  pub state : b.state ≡ stopped
  pub wanted : b.desired_state ≡ some present
  pub snapshot : b.latest_snapshot_id ≡ a.latest_snapshot_id
  pub snapshot_at : b.latest_snapshot_at ≡ a.latest_snapshot_at
  pub task : b.task_id ≡ none
  pub volume : b.volume_id ≡ none
  pub host : b.ssh_host ≡ none
  pub share : b.share_enabled ≡ none
  pub request : b.delete_requested_at ≡ none
  pub end : b.terminated_at ≡ none

abbrev back_from_deletion : Workspace → IsoTimestamp → Workspace
back_from_deletion ws back = record ws {
  state = stopped;
  desired_state = some present;
  delete_requested_at = none;
  terminated_at = none;
  last_activity = back;
  volume_id = none;
  task_id = none;
  ssh_host = none;
  share_enabled = none;
  share_enabled_at = none;
}

-- A workspace that can be deleted and has a snapshot comes back by an undelete: it is stopped and
-- wanted, has the snapshot of before, and neither a task, a volume, a host, a share nor a date of the
-- deletion. Without a snapshot the undelete is refused.
pub delete_and_undelete_restores :
    (ws : Workspace) (asked ended back : IsoTimestamp)
    → can ws.state request_delete ≡ true
    → ((w : Workspace) × (apply_all ws (delete_and_undelete asked ended back) ≡ ok w)
        × IsRestored ws w)
      ⊎ ((ws.latest_snapshot_id ≡ none)
          × (apply_all ws (delete_and_undelete asked ended back)
              ≡ err (conflict (no_retained_snapshot ws.id))))
unfolding apply_all apply can
delete_and_undelete_restores ws asked ended back h = elim (Option-cases ws.latest_snapshot_id) [
  | inl e ↦ inr (e, ground arith)
  | inr (s, e) ↦ inl (back_from_deletion ws back, ground arith, ground arith)
]
