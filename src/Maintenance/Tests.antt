-- ===== src/Maintenance/Tests.antt =====
-- A sweep over two volumes and two snapshots, and a schedule over two workspaces.
use mathlib.Core.Bool.{false≢true}
use text.Mathlib.TextEquality.{eq_iff}
use ecs_dev_desktop.Common.{
  map, ◌+◌, ◌&&◌, ltb, leb, ◌≡◌, ◌≢◌, String, refl, List, [], ◌∷◌, none, some, true, false, filter,
  not, ◌||◌, string_eq,
}
use ecs_dev_desktop.Maintenance.{
  VolumeRef, SnapshotRef, SnapshotCandidate, EarlyCadence, select_orphan_volumes,
  select_orphan_snapshots, is_retained, select_due_for_snapshot, is_due,
}
use ecs_dev_desktop.Maintenance.Orphans.{snapshot_id_of, left_over, snapshot_sweep_exact}

abbrev volumes : List VolumeRef
volumes = record { id = "vol-1"; created_at = 0 } ∷ record { id = "vol-2"; created_at = 10 } ∷ []

abbrev snapshots : List SnapshotRef
snapshots =
    record {
      id = "snap-1";
      created_at = 0;
      source_volume_id = "vol-1";
      retained = some true;
      workspace_id = none;
      size_gib = none;
    }
    ∷ record {
      id = "snap-2";
      created_at = 0;
      source_volume_id = "vol-1";
      retained = none;
      workspace_id = none;
      size_gib = some 8;
    }
    ∷ []

sweep_test : select_orphan_volumes volumes ("vol-1" ∷ []) 100 50 ≡ "vol-2" ∷ []
unfolding select_orphan_volumes
sweep_test = refl

snapshot_test : select_orphan_snapshots snapshots [] 100 50 ≡ "snap-2" ∷ []
unfolding select_orphan_snapshots
snapshot_test = refl

vol_ne : ◌≢◌ {A = String} "vol-1" "vol-2"
vol_ne e = false≢true ((eq_iff "vol-1" "vol-2").1 e)

snap_ne : ◌≢◌ {A = String} "snap-1" "snap-2"
snap_ne e = false≢true ((eq_iff "snap-1" "snap-2").1 e)

-- The second snapshot is too young for the sweep at 40, and taken at 100.
snapshot_sweep_exact_example :
    (left_over 40 50 snapshots []
      ≡ filter (λ s. is_retained s.retained || (false || ltb 40 (s.created_at + 50))) snapshots)
    × (select_orphan_snapshots (left_over 40 50 snapshots []) [] 100 50
        ≡ map snapshot_id_of (
            filter
              (λ s.
                not (is_retained s.retained)
                && (true && (ltb 40 (s.created_at + 50) && leb (s.created_at + 50) 100)))
              snapshots))
snapshot_sweep_exact_example = snapshot_sweep_exact 40 50 snapshots [] 100 ((snap_ne, tt), (tt, tt))

abbrev candidates : List SnapshotCandidate
candidates =
    record {
      id = "ws-1";
      latest_snapshot_at = none;
      created_at = some 0;
      snapshot_interval_ms = none;
    }
    ∷ record {
      id = "ws-2";
      latest_snapshot_at = some 80;
      created_at = some 0;
      snapshot_interval_ms = some 50;
    }
    ∷ []

abbrev early : EarlyCadence
early = record { interval_ms = 10; session_ms = 1000 }

schedule_test : select_due_for_snapshot candidates 100 30 (some early) ≡ "ws-1" ∷ []
unfolding select_due_for_snapshot is_due
schedule_test = refl
