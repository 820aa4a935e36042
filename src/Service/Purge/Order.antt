-- ===== src/Service/Purge/Order.antt =====
-- `purgeTombstoneRecord` of packages/control-plane/src/workspace-service.ts: the record goes before its
-- snapshot.
use ecs_dev_desktop.Common.{
  ◌≡◌, refl, String, Bool, true, false, Option, none, some, List, ◌∷◌, ◌⊎◌, inl, inr,
}
use ecs_dev_desktop.States.{SnapshotId}
use ecs_dev_desktop.Workspace.{Workspace}
use ecs_dev_desktop.Service.World.{
  Database, Environment, World, Write, written, refused, failed, Effect, Outcome, returned, thrown,
  unfinished, removed, snapshot_deleted, ◌>>=◌, continue, resume,
}
use ecs_dev_desktop.Service.Purge.{
  Purging, Tombstone, ReapAnswer, reaped, already_gone, reap_failed, after_remove, after_reap,
  reap_retained, reap_after, purge_tombstone_record,
}

module _ (d : Database) where
  -- The record was in the table with the version that the sweep read.
  abbrev pub WasThere : Tombstone → d.Table → Type 0
  WasThere r t =
      (old : Workspace) × (d.get t r.id ≡ some (record { ws = old; version = r.version }))

  -- What a purge leaves: a purge that lost does nothing; one that removed the record deletes at most its
  -- snapshot, after that.
  abbrev pub IsPurged :
      Tombstone → String → d.Table → List Effect → Outcome Bool → List Effect → Type 0
  IsPurged r actor t before (returned false) after = after ≡ before
  IsPurged r actor t before (returned true) after =
      WasThere r t
      × ((after ≡ removed r.id r.version actor ∷ before)
          ⊎ ((s : SnapshotId) × (r.latest_snapshot_id ≡ some s)
              × (after ≡ snapshot_deleted s ∷ removed r.id r.version actor ∷ before)))
  IsPurged r actor t before (thrown m) after =
      (after ≡ before) ⊎ (WasThere r t × (after ≡ removed r.id r.version actor ∷ before))
  IsPurged r actor t before unfinished after = ⊥

module _ {d : Database} (e : Environment d) (p : Purging d) where
  reap_answer-IsPurged :
      (r : Tombstone) (actor : String) (t : d.Table) (before : List Effect) (s : SnapshotId)
      (w : World d) (x : ReapAnswer)
      → WasThere d r t
      → r.latest_snapshot_id ≡ some s
      → w.trace ≡ removed r.id r.version actor ∷ before
      → IsPurged d r actor t before (after_reap e p s w x).0 (after_reap e p s w x).1.trace
  reap_answer-IsPurged r actor t before s w reaped there q h = (there, inr (s, q, rw h refl))
  reap_answer-IsPurged r actor t before s w already_gone there q h = (there, inl h)
  reap_answer-IsPurged r actor t before s w (reap_failed m) there q h = inr (there, h)

  retained-IsPurged :
      (r : Tombstone) (actor : String) (t : d.Table) (before : List Effect) (o : Option SnapshotId)
      (w : World d)
      → WasThere d r t
      → r.latest_snapshot_id ≡ o
      → w.trace ≡ removed r.id r.version actor ∷ before
      → IsPurged d r actor t before (reap_retained e p o w).0 (reap_retained e p o w).1.trace
  retained-IsPurged r actor t before none w there q h = (there, inl h)
  retained-IsPurged r actor t before (some s) w there q h =
      reap_answer-IsPurged r actor t before s (resume e w) (p.reaps w.step s) there q h

  removal-IsPurged :
      (r : Tombstone) (actor : String) (w : World d) (x : Write d.Table)
      → p.remove w.table r.id r.version ≡ x
      → IsPurged d r actor w.table w.trace
          (continue
            (after_remove e p r actor w x).0
            (reap_after e p r)
            (after_remove e p r actor w x).1).0
          (continue
            (after_remove e p r actor w x).0
            (reap_after e p r)
            (after_remove e p r actor w x).1).1.trace
  removal-IsPurged r actor w (written t) q =
      let (old, there, gone) = p.remove_written w.table t r.id r.version q in
      retained-IsPurged r actor w.table w.trace r.latest_snapshot_id
        (record w { table = t; trace = removed r.id r.version actor ∷ w.trace }) (old, there) refl
        refl
  removal-IsPurged r actor w refused q = refl
  removal-IsPurged r actor w (failed m) q = inl refl

  -- A purge that reports a removal found the record with the version that was read, whatever other
  -- processes did before, and has removed it and then deleted no snapshot or the one that the record
  -- named; one that reports a lost race has no effect; one that throws has none or the removal alone.
  -- In all cases it ends.
  pub purge_removes_first :
      (r : Tombstone) (actor : String) (w : World d)
      → IsPurged d r actor
          (resume e w).table
          w.trace
          (purge_tombstone_record e p r actor w).0
          (purge_tombstone_record e p r actor w).1.trace
  unfolding purge_tombstone_record ◌>>=◌
  purge_removes_first r actor w =
      removal-IsPurged r actor (resume e w) (p.remove (resume e w).table r.id r.version) refl
