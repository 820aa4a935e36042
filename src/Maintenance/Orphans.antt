-- ===== src/Maintenance/Orphans.antt =====
-- What the collection of orphans deletes and keeps: packages/core/src/maintenance/select.ts.
use mathlib.Core.Path.{fun_ext}
use ecs_dev_desktop.Common.{
  ℕ, ◌≡◌, refl, ◌∙◌, ap, Bool, true, false, not, ◌&&◌, ◌||◌, List, [], filter, includes, string_eq,
  map, leb, ltb, ◌+◌, arith, filter-filter, if◌then◌else◌, sym,
}
use ecs_dev_desktop.States.{VolumeId, SnapshotId, IsoTimestamp}
use ecs_dev_desktop.Maintenance.{
  VolumeRef, SnapshotRef, is_retained, older_than, volume_is_orphan, snapshot_is_orphan,
  select_orphan_volumes, select_orphan_snapshots,
}
use ecs_dev_desktop.Maintenance.Sweep.{without, HasDistinct, sweep_exact, sweep_settles}

abbrev pub volume_id_of : VolumeRef → VolumeId
volume_id_of v = v.id

abbrev pub snapshot_id_of : SnapshotRef → SnapshotId
snapshot_id_of s = s.id

not-and : (a b : Bool) → not (not a && b) ≡ (a || not b)
not-and true b = refl
not-and false b = refl

-- A snapshot that is left and selected later
taken_later :
    (r i young due : Bool)
    → (not r && (not i && (young && due)))
      ≡ (if r || (i || young) then not r && (not i && due) else false)
taken_later true i young due = refl
taken_later false true young due = refl
taken_later false false true due = refl
taken_later false false false due = refl

not-leb : (k now : ℕ) → not (leb k now) ≡ ltb now k
not-leb k now = ground arith

module _ (now : IsoTimestamp) (grace_ms : ℕ) where
  module _ (existing : List VolumeRef) (referenced : List VolumeId) where
    -- A sweep over volumes with distinct ids leaves exactly those that a workspace references or that
    -- are younger than the grace window.
    pub volume_sweep_exact :
        HasDistinct volume_id_of existing
        → without volume_id_of (select_orphan_volumes existing referenced now grace_ms) existing
          ≡ filter
              (λ v. includes referenced v.id || not (older_than v.created_at now grace_ms))
              existing
    unfolding select_orphan_volumes
    volume_sweep_exact d =
        sweep_exact volume_id_of (volume_is_orphan referenced now grace_ms) existing d
        ∙ ap (λ p. filter p existing)
            (fun_ext λ v. not-and (includes referenced v.id) (older_than v.created_at now grace_ms))

  module _ (existing : List SnapshotRef) (referenced : List SnapshotId) where
    -- What a sweep leaves of the snapshots
    abbrev pub left_over : List SnapshotRef
    left_over =
        without snapshot_id_of (select_orphan_snapshots existing referenced now grace_ms) existing

    snapshot_sweep_leaves :
        HasDistinct snapshot_id_of existing
        → left_over
          ≡ filter
              (λ s.
                is_retained s.retained
                || (includes referenced s.id || ltb now (s.created_at + grace_ms)))
              existing
    unfolding select_orphan_snapshots
    snapshot_sweep_leaves d =
        sweep_exact snapshot_id_of (snapshot_is_orphan referenced now grace_ms) existing d
        ∙ ap (λ p. filter p existing)
            (fun_ext λ s.
              not-and (is_retained s.retained)
                (not (includes referenced s.id) && older_than s.created_at now grace_ms)
              ∙ ap (λ b. is_retained s.retained || b)
                  (not-and (includes referenced s.id) (older_than s.created_at now grace_ms)
                    ∙ ap (λ b. includes referenced s.id || b)
                        (not-leb (s.created_at + grace_ms) now)))

    -- A sweep over snapshots with distinct ids leaves exactly those that are marked retained, that a
    -- workspace references, or whose creation and the grace window after it reach beyond now. Any later
    -- sweep with the same references then takes, of all the snapshots, exactly those that are neither
    -- retained nor referenced and whose window has passed between the two sweeps.
    pub snapshot_sweep_exact :
        (later : IsoTimestamp)
        → HasDistinct snapshot_id_of existing
        → (left_over
            ≡ filter
                (λ s.
                  is_retained s.retained
                  || (includes referenced s.id || ltb now (s.created_at + grace_ms)))
                existing)
          × (select_orphan_snapshots left_over referenced later grace_ms
              ≡ map snapshot_id_of (
                  filter
                    (λ s.
                      not (is_retained s.retained)
                      && (not (includes referenced s.id)
                          && (ltb now (s.created_at + grace_ms)
                              && leb (s.created_at + grace_ms) later)))
                    existing))
    unfolding select_orphan_snapshots
    snapshot_sweep_exact later d = (
      snapshot_sweep_leaves d,
      ap (λ xs. map snapshot_id_of (filter (snapshot_is_orphan referenced later grace_ms) xs))
            (snapshot_sweep_leaves d)
          ∙ ap (map snapshot_id_of) (
              sym (
                filter-filter
                  (λ s.
                    is_retained s.retained
                    || (includes referenced s.id || ltb now (s.created_at + grace_ms)))
                  (snapshot_is_orphan referenced later grace_ms) _
                  (λ s.
                    taken_later (is_retained s.retained) (includes referenced s.id)
                      (ltb now (s.created_at + grace_ms)) _)
                  existing)),
    )

    -- Once the selected snapshots are deleted the same sweep selects none.
    pub snapshot_sweep_settles :
        select_orphan_snapshots
          (without snapshot_id_of
            (select_orphan_snapshots existing referenced now grace_ms)
            existing)
          referenced
          now
          grace_ms
        ≡ []
    unfolding select_orphan_snapshots
    snapshot_sweep_settles =
        sweep_settles snapshot_id_of (snapshot_is_orphan referenced now grace_ms) existing
