-- ===== src/Service/Commit.antt =====
-- The conditional write of `persistTransition` in packages/control-plane/src/workspace-service.ts.
use ecs_dev_desktop.Common.{ℕ, ◌≤◌, String, true, Option, some, ◌≡◌, ◌≢◌, refl, ap, sym, ◌∙◌, arith}
use ecs_dev_desktop.States.{WorkspaceId}
use ecs_dev_desktop.Workspace.{Workspace}
use ecs_dev_desktop.Service.World.{
  Database, Environment, World, Loaded, Write, written, refused, failed, AuditAction, returned,
  after_patch, stored, persist_transition, resume,
}

-- The write went over a record of the version that was read.
abbrev IsSwap : (d : Database) → d.Table → d.Table → Workspace → ℕ → Type 0
IsSwap d t t' next v =
    (old : Loaded) × (d.get t next.id ≡ some old)
    × (old.version ≡ v)
    × (d.get t' next.id ≡ some (stored next v old))

-- A record that stands in the first table has in the second no lower version, if it is still there.
abbrev pub NeverBack : (d : Database) → d.Table → d.Table → WorkspaceId → Type 0
NeverBack d t t' id =
    (before after : Loaded)
    → d.get t id ≡ some before
    → d.get t' id ≡ some after
    → before.version ≤ after.version

module _ {d : Database} where
  answered-IsSwap :
      (next : Workspace) (v : ℕ) (audit : Option (AuditAction × String)) (w : World d)
      (x : Write d.Table)
      → d.patch w.table next.id v (stored next v) ≡ x
      → (after_patch next v audit w x).0 ≡ returned true
      → IsSwap d w.table (after_patch next v audit w x).1.table next v
  answered-IsSwap next v audit w (written t) q h =
      d.patch_written w.table t next.id v (stored next v) q
  answered-IsSwap next v audit w refused q h = absurd (cc)
  answered-IsSwap next v audit w (failed m) q h = absurd (cc)

  answered-unchanged :
      (next : Workspace) (v : ℕ) (audit : Option (AuditAction × String)) (w : World d)
      (x : Write d.Table)
      → ((t : d.Table) → x ≢ written t)
      → ((after_patch next v audit w x).0 ≢ returned true)
        × ((after_patch next v audit w x).1.table ≡ w.table)
        × ((after_patch next v audit w x).1.trace ≡ w.trace)
  answered-unchanged next v audit w (written t) h = absurd (h t refl)
  answered-unchanged next v audit w refused h = (λ q. cc, refl, refl)
  answered-unchanged next v audit w (failed m) h = (λ q. cc, refl, refl)

module _ {d : Database} (e : Environment d) where
  persist-IsSwap :
      (next : Workspace) (v : ℕ) (audit : Option (AuditAction × String)) (w : World d)
      → (persist_transition e next v audit w).0 ≡ returned true
      → IsSwap d (resume e w).table (persist_transition e next v audit w).1.table next v
  unfolding persist_transition
  persist-IsSwap next v audit w h = answered-IsSwap next v audit (resume e w) _ refl h

  -- After a transition that was written over the version `v`, a transition of the same workspace that
  -- was computed from that version or from an earlier one is not written, and leaves the table and the
  -- effects as they are: no update is lost. Between the two, and right before the second, other
  -- processes may do what they like, except that the record does not go back to a lower version.
  pub stale_write_is_refused :
      (first later : Workspace) (v u : ℕ) (audit audit' : Option (AuditAction × String))
      (w w' : World d)
      → later.id ≡ first.id
      → u ≤ v
      → (persist_transition e first v audit w).0 ≡ returned true
      → NeverBack d (persist_transition e first v audit w).1.table (resume e w').table first.id
      → ((persist_transition e later u audit' w').0 ≢ returned true)
        × ((persist_transition e later u audit' w').1.table ≡ (resume e w').table)
        × ((persist_transition e later u audit' w').1.trace ≡ w'.trace)
  unfolding persist_transition
  stale_write_is_refused first later v u audit audit' w w' same le done back =
      let (old, before, version, now) = persist-IsSwap first v audit w done in
      let t = (resume e w').table in
      answered-unchanged later u audit' (resume e w') (d.patch t later.id u (stored later u))
        (λ t' q.
          let (row, found, read, after) = d.patch_written t t' later.id u (stored later u) q in
          let kept = back (stored first v old) row now (ap (d.get t) (sym same) ∙ found) in
          omega arith)
