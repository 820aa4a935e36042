-- ===== src/Service/Snapshot/Recorded.antt =====
-- A snapshot that a user asks for: what is recorded when it succeeds.
use ecs_dev_desktop.Common.{
  ℕ, zero, suc, ◌+◌, ◌≤◌, Bool, true, false, ◌||◌, Option, none, some, [], ◌∷◌, ◌≡◌, ◌⊎◌, refl, inl,
  inr, Bool-cases,
}
use ecs_dev_desktop.Result.{Result, ok, err}
use ecs_dev_desktop.Errors.{Message, DomainError, lost_update}
use ecs_dev_desktop.States.{WorkspaceId, VolumeId, SnapshotId, IsoTimestamp, state_eq}
use ecs_dev_desktop.Workspace.{Workspace}
use ecs_dev_desktop.Workspace.Reports.{record_snapshot}
use ecs_dev_desktop.Service.World.{
  Database, Environment, World, M, Loaded, committed, snapshot_taken, task_started, task_stopped,
  removed, snapshot_deleted, Outcome, returned, thrown, unfinished, SnapshotAnswer, taken, gone,
  storage_failed, create_snapshot, after_snapshot, resume,
}
use ecs_dev_desktop.Service.Rules.{Log, Triple, bind-Triple, pure-Triple, persist-Triple}
use ecs_dev_desktop.Service.Stop.{
  Reply, snapshot_for_transition, settle_snapshot, is_gone, version_moved,
}
use ecs_dev_desktop.Service.Wake.{is_up}
use ecs_dev_desktop.Service.Wake.Steps.{find-After, clock-After, bind-After}
use ecs_dev_desktop.Service.Snapshot.Bounded.{snapshot-Awaits}
use ecs_dev_desktop.Service.Snapshot.{
  same_snapshot, attempt_on, record_attempt, snapshot_volume, snapshot,
}

-- The snapshot was taken.
abbrev pub Taken : SnapshotId → Log
Taken s [] = ⊥
Taken s (snapshot_taken volume r ∷ t) = (r ≡ s) ⊎ Taken s t
Taken s (committed next v audit ∷ t) = Taken s t
Taken s (task_started task r ∷ t) = Taken s t
Taken s (task_stopped task ∷ t) = Taken s t
Taken s (removed id v actor ∷ t) = Taken s t
Taken s (snapshot_deleted r ∷ t) = Taken s t

abbrev pub IsLast : Workspace → Log
IsLast ws (committed next v audit ∷ t) = next ≡ ws
IsLast ws _ = ⊥

-- The workspace that is returned is live, its write is the last effect, and it names a snapshot that
-- was taken.
abbrev pub IsSnapshotReply : Outcome Reply → Log
IsSnapshotReply (returned (ok ws)) t =
    (is_up ws.state ≡ true)
    × IsLast ws t
    × ((s : SnapshotId) × (ws.latest_snapshot_id ≡ some s) × Taken s t)
IsSnapshotReply (returned (err x)) t = Unit
IsSnapshotReply (thrown m) t = Unit
IsSnapshotReply unfinished t = ⊥

abbrev Always : Log
Always t = Unit

-- What an answer of the storage, and the step around it, leave.
abbrev Answered : Outcome SnapshotAnswer → Log
Answered (returned (taken s)) t = Taken s t
Answered unfinished t = ⊥
Answered _ t = Unit

abbrev Got : Outcome (Result SnapshotId DomainError) → Log
Got (returned (ok s)) t = Taken s t
Got unfinished t = ⊥
Got _ t = Unit

-- After the write of an attempt.
abbrev Wrote : SnapshotId → Workspace → Outcome Bool → Log
Wrote s next (returned true) t = IsLast next t × Taken s t
Wrote s next (returned false) t = Taken s t
Wrote s next (thrown m) t = Unit
Wrote s next unfinished t = ⊥

module _ {d : Database} where
  answered :
      (volume : VolumeId) (w : World d) (x : SnapshotAnswer)
      → Answered (after_snapshot volume w x).0 (after_snapshot volume w x).1.trace
  answered volume w (taken s) = inl refl
  answered volume w gone = tt
  answered volume w (storage_failed m) = tt

module _ {d : Database} (e : Environment d) where
  create-Answered : (volume : VolumeId) → Triple Always (create_snapshot e volume) Answered
  unfolding create_snapshot
  create-Answered volume = record {
    holds = λ w p. answered volume (resume e w) (e.snapshots w.step volume);
  }

  settle-Got :
      (id : WorkspaceId) (version : ℕ) (answer : SnapshotAnswer) (m : Message)
      → Triple Always (settle_snapshot e id version answer m) Got
  settle-Got id version answer m =
      bind-After {P' = Always} (find-After e id)
        (λ o. elim (Bool-cases (is_gone answer || version_moved o version)) [
          | inl b ↦ rw b (pure-Triple λ t p. tt)
          | inr b ↦ rw b (record { holds = λ w p. tt })
        ])
        (λ x t p. tt)

  transition-Got :
      (id : WorkspaceId) (volume : VolumeId) (version : ℕ)
      → Triple Always (snapshot_for_transition e id volume version) Got
  unfolding snapshot_for_transition
  transition-Got id volume version =
      bind-Triple (create-Answered volume)
        (elim [
          | taken s ↦ pure-Triple λ t p. p
          | gone ↦ settle-Got id version gone (lost_update id)
          | storage_failed m ↦ settle-Got id version (storage_failed m) m
        ])
        (λ x t p. tt) (λ t p. p)

  attempt_on-Reply :
      (id : WorkspaceId) (before : Option SnapshotId) (s : SnapshotId) (at : IsoTimestamp)
      (again : M d Reply) (o : Option Loaded)
      → Triple (Taken s) again IsSnapshotReply
      → Triple (Taken s) (attempt_on e id before s at again o) IsSnapshotReply
  unfolding record_snapshot
  attempt_on-Reply id before s at again none h = pure-Triple λ t p. tt
  attempt_on-Reply id before s at again (some l) h = elim (Bool-cases (is_up l.ws.state)) [
    | inr u ↦ rw u (pure-Triple λ t p. tt)
    | inl u ↦ rw u (elim (Bool-cases (same_snapshot l.ws.latest_snapshot_id before)) [
      | inr q ↦ rw q (pure-Triple λ t p. tt)
      | inl q ↦ rw q (
          bind-Triple {Q = Wrote s (record_snapshot l.ws s at)}
            (persist-Triple e (record_snapshot l.ws s at) l.version none (λ t p. (refl, p))
              (λ t p. p) (λ m t p. tt))
            (elim [ true ↦ pure-Triple λ t p. (u, p.0, (s, refl, p.1)) | false ↦ h ]) (λ x t p. tt)
            (λ t p. p))
    ])
  ]

  attempt-Reply :
      (retries : ℕ) (id : WorkspaceId) (before : Option SnapshotId) (s : SnapshotId)
      (at : IsoTimestamp)
      → Triple (Taken s) (record_attempt e retries id before s at) IsSnapshotReply
  unfolding record_attempt
  attempt-Reply zero id before s at =
      bind-After (find-After e id)
        (λ o. attempt_on-Reply id before s at _ o (pure-Triple λ t p. tt)) (λ x t p. tt)
  attempt-Reply (suc retries) id before s at =
      bind-After (find-After e id)
        (λ o. attempt_on-Reply id before s at _ o (attempt-Reply retries id before s at))
        (λ x t p. tt)

  volume-Reply :
      (id : WorkspaceId) (l : Loaded) (o : Option VolumeId)
      → Triple Always (snapshot_volume e id l o) IsSnapshotReply
  volume-Reply id l none = pure-Triple λ t p. tt
  volume-Reply id l (some volume) =
      bind-Triple (transition-Got id volume l.version)
        (elim [
          | err x ↦ pure-Triple λ t p. tt
          | ok s ↦
              bind-After (clock-After e) (λ at. attempt-Reply 1 id l.ws.latest_snapshot_id s at)
                (λ x t p. tt)
        ])
        (λ x t p. tt) (λ t p. p)

  -- A snapshot that a user asks for ends after at most eight awaited calls, whatever they answer. When it
  -- returns a workspace, that is running or idle, its write is the last effect of the call, and it names a
  -- snapshot that the storage has taken.
  pub snapshot_records_taken :
      (id : WorkspaceId) (w : World d)
      → IsSnapshotReply (snapshot e id w).0 (snapshot e id w).1.trace
        × ((snapshot e id w).1.step ≤ w.step + 8)
  unfolding snapshot
  snapshot_records_taken id w = (snapping.holds w tt, (snapshot-Awaits e id).bound w)
    where
      snapping : Triple Always (snapshot e id) IsSnapshotReply
      snapping =
          bind-After {P' = Always} (find-After e id)
            (elim [
              | none ↦ pure-Triple λ t q. tt
              | some l ↦ elim (Bool-cases (is_up l.ws.state)) [
                | inl u ↦ rw u (volume-Reply id l l.ws.volume_id)
                | inr u ↦ rw u (pure-Triple λ t q. tt)
              ]
            ])
            (λ x t q. tt)
