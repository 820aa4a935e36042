-- ===== src/Maintenance.antt =====
-- packages/core/src/maintenance/select.ts: the pure decisions of orphan collection and of scheduled
-- snapshots. A `ReadonlySet` is the list of its members. An age is compared by addition, since the
-- subtraction of two instants may be negative.
mod Tests
pub mod Sweep
pub mod Orphans
pub mod Schedule
use ecs_dev_desktop.Common.{
  ℕ, ◌+◌, String, Bool, true, false, not, ◌&&◌, Option, none, some, List, map, ◌==◌, string_eq, leb,
  or_else, or_option, filter, includes, if◌then◌else◌,
}
use ecs_dev_desktop.States.{VolumeId, SnapshotId, TaskId, WorkspaceId, IsoTimestamp}

-- packages/core/src/storage/storage-provider.ts and packages/core/src/compute/compute-provider.ts
pub record VolumeRef : Type 0 where
  pub id : VolumeId
  pub created_at : IsoTimestamp

pub record SnapshotRef : Type 0 where
  pub id : SnapshotId
  pub created_at : IsoTimestamp
  pub source_volume_id : VolumeId
  pub retained : Option Bool
  pub workspace_id : Option WorkspaceId
  pub size_gib : Option ℕ

pub record WorkspaceTaskRef : Type 0 where
  pub id : TaskId
  pub workspace_id : WorkspaceId
  pub started_at : IsoTimestamp

pub record WorkspaceAgentSecretRef : Type 0 where
  pub name : String
  pub workspace_id : WorkspaceId
  pub created_at : IsoTimestamp

pub record SnapshotCandidate : Type 0 where
  pub id : WorkspaceId
  pub latest_snapshot_at : Option IsoTimestamp
  pub created_at : Option IsoTimestamp
  pub snapshot_interval_ms : Option ℕ

abbrev pub older_than : IsoTimestamp → IsoTimestamp → ℕ → Bool
older_than created_at now ms = leb (created_at + ms) now

-- `retained === true`
abbrev pub is_retained : Option Bool → Bool
is_retained none = false
is_retained (some b) = b

abbrev pub volume_is_orphan : List VolumeId → IsoTimestamp → ℕ → VolumeRef → Bool
volume_is_orphan referenced now grace_ms v =
    not (includes referenced v.id) && older_than v.created_at now grace_ms

unfoldable pub select_orphan_volumes :
    List VolumeRef → List VolumeId → IsoTimestamp → ℕ → List VolumeId
select_orphan_volumes existing referenced now grace_ms =
    map (λ v. v.id) (filter (volume_is_orphan referenced now grace_ms) existing)

abbrev pub snapshot_is_orphan : List SnapshotId → IsoTimestamp → ℕ → SnapshotRef → Bool
snapshot_is_orphan referenced now grace_ms s =
    not (is_retained s.retained)
    && (not (includes referenced s.id) && older_than s.created_at now grace_ms)

unfoldable pub select_orphan_snapshots :
    List SnapshotRef → List SnapshotId → IsoTimestamp → ℕ → List SnapshotId
select_orphan_snapshots existing referenced now grace_ms =
    map (λ s. s.id) (filter (snapshot_is_orphan referenced now grace_ms) existing)

abbrev pub task_is_orphan : List TaskId → IsoTimestamp → ℕ → WorkspaceTaskRef → Bool
task_is_orphan referenced now grace_ms t =
    not (includes referenced t.id) && older_than t.started_at now grace_ms

unfoldable pub select_orphan_tasks :
    List WorkspaceTaskRef → List TaskId → IsoTimestamp → ℕ → List WorkspaceTaskRef
select_orphan_tasks existing referenced now grace_ms =
    filter (task_is_orphan referenced now grace_ms) existing

abbrev pub secret_is_orphan : List WorkspaceId → IsoTimestamp → ℕ → WorkspaceAgentSecretRef → Bool
secret_is_orphan live now grace_ms s =
    not (includes live s.workspace_id) && older_than s.created_at now grace_ms

unfoldable pub select_orphan_secrets :
    List WorkspaceAgentSecretRef
    → List WorkspaceId
    → IsoTimestamp
    → ℕ
    → List WorkspaceAgentSecretRef
select_orphan_secrets existing live now grace_ms =
    filter (secret_is_orphan live now grace_ms) existing

-- The `early` option: the cadence of a young workspace, and how long it is young.
pub record EarlyCadence : Type 0 where
  pub interval_ms : ℕ
  pub session_ms : ℕ

-- `createdAt !== undefined && !olderThan(createdAt, now, sessionMs)`
abbrev pub is_young : Option IsoTimestamp → IsoTimestamp → ℕ → Bool
is_young none now session_ms = false
is_young (some created_at) now session_ms = not (older_than created_at now session_ms)

-- `isYoung ? earlyIntervalMs : undefined`
abbrev pub early_interval : Option EarlyCadence → Option IsoTimestamp → IsoTimestamp → Option ℕ
early_interval none created_at now = none
early_interval (some e) created_at now =
    if is_young created_at now e.session_ms then some e.interval_ms else none

abbrev pub effective_interval : SnapshotCandidate → IsoTimestamp → ℕ → Option EarlyCadence → ℕ
effective_interval c now interval_ms early =
    or_else (or_option c.snapshot_interval_ms (early_interval early c.created_at now)) interval_ms

abbrev due_since : Option IsoTimestamp → IsoTimestamp → ℕ → Bool
due_since none now interval_ms = true
due_since (some at) now interval_ms = older_than at now interval_ms

unfoldable pub is_due : IsoTimestamp → ℕ → Option EarlyCadence → SnapshotCandidate → Bool
is_due now interval_ms early c =
    due_since c.latest_snapshot_at now (effective_interval c now interval_ms early)

unfoldable pub select_due_for_snapshot :
    List SnapshotCandidate → IsoTimestamp → ℕ → Option EarlyCadence → List WorkspaceId
select_due_for_snapshot candidates now interval_ms early =
    map (λ c. c.id) (filter (is_due now interval_ms early) candidates)
