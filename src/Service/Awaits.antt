-- ===== src/Service/Awaits.antt =====
-- packages/control-plane/src/workspace-service.ts: how many calls of the table, the backends and the clock
-- an operation awaits at most.
use ecs_dev_desktop.Common.{ℕ, ◌+◌, ◌≤◌, String, Option, ◌≡◌, refl, arith}
use ecs_dev_desktop.Errors.{Message}
use ecs_dev_desktop.States.{WorkspaceId, VolumeId}
use ecs_dev_desktop.Workspace.{Workspace}
use ecs_dev_desktop.Service.World.{
  Database, Environment, World, M, Write, written, refused, failed, Outcome, returned, thrown,
  unfinished, AuditAction, SnapshotAnswer, taken, gone, storage_failed, pure, throw, ◌>>=◌,
  continue, resume, clock_now, find, persist_transition, create_snapshot, after_patch,
  after_snapshot, stored,
}

-- At most this many steps are awaited, whatever the calls answer.
pub record Awaits {d : Database} {A : Type 0} (k : ℕ) (m : M d A) : Type 0 where
  pub bound : (w : World d) → (m w).1.step ≤ w.step + k

module _ {d : Database} where
  pub pure-Awaits : {A : Type 0} {a : A} (k : ℕ) → Awaits {d = d} k (pure a)
  pure-Awaits k = record { bound = λ w. omega arith }

  pub throw-Awaits : {A : Type 0} {m : Message} (k : ℕ) → Awaits {d = d} {A = A} k (throw m)
  throw-Awaits k = record { bound = λ w. omega arith }

  module _ {A B : Type 0} {m : M d A} {f : A → M d B} where
    pub bind-Awaits : (j k : ℕ) → Awaits j m → ((a : A) → Awaits k (f a)) → Awaits (j + k) (m >>= f)
    unfolding ◌>>=◌
    bind-Awaits j k h g = record { bound = λ w. go w (m w).0 (m w).1 (h.bound w) }
      where
        go :
            (w : World d) (o : Outcome A) (w' : World d)
            → w'.step ≤ w.step + j
            → (continue o f w').1.step ≤ w.step + (j + k)
        go w (returned a) w' le = let more = (g a).bound w' in omega arith
        go w (thrown x) w' le = omega arith
        go w unfinished w' le = omega arith

  after_patch-step :
      (next : Workspace) (v : ℕ) (audit : Option (AuditAction × String)) (w : World d)
      (x : Write d.Table)
      → (after_patch next v audit w x).1.step ≡ w.step
  after_patch-step next v audit w (written t) = refl
  after_patch-step next v audit w refused = refl
  after_patch-step next v audit w (failed m) = refl

  after_snapshot-step :
      (volume : VolumeId) (w : World d) (x : SnapshotAnswer)
      → (after_snapshot volume w x).1.step ≡ w.step
  after_snapshot-step volume w (taken s) = refl
  after_snapshot-step volume w gone = refl
  after_snapshot-step volume w (storage_failed m) = refl

module _ {d : Database} (e : Environment d) where
  pub find-Awaits : (id : WorkspaceId) → Awaits 1 (find e id)
  unfolding find
  find-Awaits id = record { bound = λ w. omega arith }

  pub clock-Awaits : Awaits 1 (clock_now e)
  unfolding clock_now
  clock-Awaits = record { bound = λ w. omega arith }

  pub create-Awaits : (volume : VolumeId) → Awaits 1 (create_snapshot e volume)
  unfolding create_snapshot
  create-Awaits volume = record {
    bound = λ w.
        let s = after_snapshot-step volume (resume e w) (e.snapshots w.step volume) in omega arith;
  }

  pub persist-Awaits :
      (next : Workspace) (v : ℕ) (audit : Option (AuditAction × String))
      → Awaits 1 (persist_transition e next v audit)
  unfolding persist_transition
  persist-Awaits next v audit = record {
    bound = λ w.
        let s =
          after_patch-step next v audit (resume e w)
            (d.patch (resume e w).table next.id v (stored next v)) in
        omega arith;
  }
