-- ===== src/Service/Purge.antt =====
-- `purgeNow`, `purgeExpiredTombstones` and `purgeTombstoneRecord` of
-- packages/control-plane/src/workspace-service.ts: the end of a deleted workspace.
pub mod Order
use ecs_dev_desktop.Common.{
  ℕ, zero, suc, ◌+◌, ◌≡◌, String, Bool, true, false, not, Option, none, some, List, [], ◌∷◌, ◌==◌,
  ltb, or_else, if◌then◌else◌,
}
use ecs_dev_desktop.Result.{Result, ok, err}
use ecs_dev_desktop.Errors.{Message, DomainError, conflict, cannot_purge}
use ecs_dev_desktop.States.{WorkspaceId, SnapshotId, IsoTimestamp, terminated, state_eq}
use ecs_dev_desktop.Workspace.{Workspace}
use ecs_dev_desktop.Service.World.{
  Database, Environment, World, Loaded, Write, written, refused, failed, Outcome, returned, thrown,
  removed, snapshot_deleted, M, pure, ◌>>=◌, resume, clock_now, find,
}
use ecs_dev_desktop.Service.Finish.{Done}
use ecs_dev_desktop.Service.Stop.{system_actor}

-- The answer to a request to delete a snapshot
pub data ReapAnswer : Type 0 where
  reaped already_gone : ReapAnswer
  reap_failed : Message → ReapAnswer

-- What a purge needs of the table and of the storage. A removal that is conditioned on a version is done
-- only on an item that has this version.
pub record Purging (d : Database) : Type 0 where
  pub remove : d.Table → WorkspaceId → ℕ → Write d.Table
  pub remove_written :
      (t t' : d.Table) (id : WorkspaceId) (v : ℕ)
      → remove t id v ≡ written t'
      → (old : Workspace) × (d.get t id ≡ some (record { ws = old; version = v }))
        × (d.get t' id ≡ none)
  pub reaps : ℕ → SnapshotId → ReapAnswer

-- What the sweep reads of a record
pub record Tombstone : Type 0 where
  pub id : WorkspaceId
  pub latest_snapshot_id : Option SnapshotId
  pub version : ℕ
  pub terminated_at : Option IsoTimestamp
  pub last_activity : IsoTimestamp

abbrev pub tombstone_of : Loaded → Tombstone
tombstone_of l = record {
  id = l.ws.id;
  latest_snapshot_id = l.ws.latest_snapshot_id;
  version = l.version;
  terminated_at = l.ws.terminated_at;
  last_activity = l.ws.last_activity;
}

-- `nowMs - terminatedAtMs < retentionMs`
abbrev pub is_retained : ℕ → IsoTimestamp → Tombstone → Bool
is_retained retention_ms now r = ltb now (or_else r.terminated_at r.last_activity + retention_ms)

module _ {d : Database} (e : Environment d) (p : Purging d) where
  -- The removal is written in one transaction with its audit entry.
  abbrev pub after_remove : Tombstone → String → World d → Write d.Table → Outcome Bool × World d
  after_remove r actor w (written t) =
      (returned true, record w { table = t; trace = removed r.id r.version actor ∷ w.trace })
  after_remove r actor w refused = (returned false, w)
  after_remove r actor w (failed m) = (thrown m, w)

  abbrev pub remove_record : Tombstone → String → M d Bool
  remove_record r actor w =
      after_remove r actor (resume e w) (p.remove (resume e w).table r.id r.version)

  -- A snapshot that is gone already is no error.
  abbrev pub after_reap : SnapshotId → World d → ReapAnswer → Outcome Bool × World d
  after_reap s w reaped = (returned true, record w { trace = snapshot_deleted s ∷ w.trace })
  after_reap s w already_gone = (returned true, w)
  after_reap s w (reap_failed m) = (thrown m, w)

  abbrev pub reap_snapshot : SnapshotId → M d Bool
  reap_snapshot s w = after_reap s (resume e w) (p.reaps w.step s)

  abbrev pub reap_retained : Option SnapshotId → M d Bool
  reap_retained none = pure true
  reap_retained (some s) = reap_snapshot s

  abbrev pub reap_after : Tombstone → Bool → M d Bool
  reap_after r true = reap_retained r.latest_snapshot_id
  reap_after r false = pure false

  unfoldable pub purge_tombstone_record : Tombstone → String → M d Bool
  purge_tombstone_record r actor = remove_record r actor >>= reap_after r

  abbrev pub purge_loaded : WorkspaceId → String → Option Loaded → M d Done
  purge_loaded id actor none = pure (ok tt)
  purge_loaded id actor (some l) =
      if l.ws.state == terminated
      then (remove_record (tombstone_of l) actor >>= reap_after (tombstone_of l) >>= λ _.
          pure (ok tt))
      else pure (err (conflict (cannot_purge id l.ws.state)))

  unfoldable pub purge_now : WorkspaceId → Option String → M d Done
  unfolding find
  purge_now id actor = find e id >>= purge_loaded id (or_else actor system_actor)

  abbrev pub count_if : Bool → ℕ → ℕ
  count_if true n = suc n
  count_if false n = n

  -- The loop over the records that are terminated
  abbrev pub purge_each : ℕ → IsoTimestamp → List Tombstone → ℕ → M d ℕ
  purge_each retention_ms now [] purged = pure purged
  purge_each retention_ms now (r ∷ rs) purged =
      let rest = purge_each retention_ms now rs in
      if is_retained retention_ms now r
      then rest purged
      else (remove_record r system_actor >>= reap_after r >>= λ done. rest (count_if done purged))

  unfoldable pub purge_expired_tombstones : ℕ → List Tombstone → M d ℕ
  unfolding clock_now
  purge_expired_tombstones retention_ms records =
      clock_now e >>= λ now. purge_each retention_ms now records 0
