-- ===== src/Service/Snapshot/Bounded.antt =====
-- How many calls a snapshot that a user asks for awaits. Each attempt to record it awaits a read and a
-- write.
use ecs_dev_desktop.Common.{ℕ, ◌+◌, true, false, ◌||◌, Option, none, some, inl, inr, Bool-cases}
use ecs_dev_desktop.Result.{ok, err}
use ecs_dev_desktop.Errors.{Message, lost_update}
use ecs_dev_desktop.States.{WorkspaceId, VolumeId, SnapshotId, IsoTimestamp}
use ecs_dev_desktop.Workspace.Reports.{record_snapshot}
use ecs_dev_desktop.Service.World.{
  Database, Environment, M, Loaded, SnapshotAnswer, taken, gone, storage_failed,
}
use ecs_dev_desktop.Service.Awaits.{
  Awaits, pure-Awaits, throw-Awaits, bind-Awaits, find-Awaits, clock-Awaits, create-Awaits,
  persist-Awaits,
}
use ecs_dev_desktop.Service.Stop.{
  Reply, snapshot_for_transition, settle_snapshot, is_gone, version_moved,
}
use ecs_dev_desktop.Service.Wake.{is_up}
use ecs_dev_desktop.Service.Snapshot.{
  same_snapshot, attempt_on, record_attempt, snapshot_volume, snapshot,
}

module _ {d : Database} (e : Environment d) where
  settle-Awaits :
      (id : WorkspaceId) (version : ℕ) (answer : SnapshotAnswer) (m : Message)
      → Awaits 1 (settle_snapshot e id version answer m)
  settle-Awaits id version answer m = bind-Awaits 1 0 (find-Awaits e id) (λ o.
      elim (Bool-cases (is_gone answer || version_moved o version)) [
        | inl b ↦ rw b (pure-Awaits 0)
        | inr b ↦ rw b (throw-Awaits 0)
      ])

  transition-Awaits :
      (id : WorkspaceId) (volume : VolumeId) (version : ℕ)
      → Awaits 2 (snapshot_for_transition e id volume version)
  unfolding snapshot_for_transition
  transition-Awaits id volume version = bind-Awaits 1 1 (create-Awaits e volume) (elim [
    | taken s ↦ pure-Awaits 1
    | gone ↦ settle-Awaits id version gone (lost_update id)
    | storage_failed m ↦ settle-Awaits id version (storage_failed m) m
  ])

  attempt_on-Awaits :
      (k : ℕ) (id : WorkspaceId) (before : Option SnapshotId) (s : SnapshotId) (at : IsoTimestamp)
      (again : M d Reply) (o : Option Loaded)
      → Awaits k again
      → Awaits (1 + k) (attempt_on e id before s at again o)
  attempt_on-Awaits k id before s at again none h = pure-Awaits (1 + k)
  attempt_on-Awaits k id before s at again (some l) h = elim (Bool-cases (is_up l.ws.state)) [
    | inr u ↦ rw u (pure-Awaits (1 + k))
    | inl u ↦ rw u (elim (Bool-cases (same_snapshot l.ws.latest_snapshot_id before)) [
      | inr q ↦ rw q (pure-Awaits (1 + k))
      | inl q ↦ rw q (
          bind-Awaits 1 k (persist-Awaits e (record_snapshot l.ws s at) l.version none)
            (elim [ true ↦ pure-Awaits k | false ↦ h ]))
    ])
  ]

  last_attempt-Awaits :
      (id : WorkspaceId) (before : Option SnapshotId) (s : SnapshotId) (at : IsoTimestamp)
      → Awaits 2 (record_attempt e 0 id before s at)
  unfolding record_attempt
  last_attempt-Awaits id before s at =
      bind-Awaits 1 1 (find-Awaits e id)
        (λ o. attempt_on-Awaits 0 id before s at _ o (pure-Awaits 0))

  attempts-Awaits :
      (id : WorkspaceId) (before : Option SnapshotId) (s : SnapshotId) (at : IsoTimestamp)
      → Awaits 4 (record_attempt e 1 id before s at)
  unfolding record_attempt
  attempts-Awaits id before s at =
      bind-Awaits 1 3 (find-Awaits e id)
        (λ o. attempt_on-Awaits 2 id before s at _ o (last_attempt-Awaits id before s at))

  volume-Awaits :
      (id : WorkspaceId) (l : Loaded) (o : Option VolumeId) → Awaits 7 (snapshot_volume e id l o)
  volume-Awaits id l none = pure-Awaits 7
  volume-Awaits id l (some volume) = bind-Awaits 2 5 (transition-Awaits id volume l.version) (elim [
    | err x ↦ pure-Awaits 5
    | ok s ↦
        bind-Awaits 1 4 (clock-Awaits e) (λ at. attempts-Awaits id l.ws.latest_snapshot_id s at)
  ])

  pub snapshot-Awaits : (id : WorkspaceId) → Awaits 8 (snapshot e id)
  unfolding snapshot
  snapshot-Awaits id = bind-Awaits 1 7 (find-Awaits e id) (elim [
    | none ↦ pure-Awaits 7
    | some l ↦ elim (Bool-cases (is_up l.ws.state)) [
      | inl u ↦ rw u (volume-Awaits id l l.ws.volume_id)
      | inr u ↦ rw u (pure-Awaits 7)
    ]
  ])
