-- ===== src/Service/World.antt =====
-- The world of packages/control-plane/src/workspace-service.ts. The table, the storage and the compute
-- backend are not part of the service: the table is an interface with the laws of a conditional write,
-- the answers of the backends and the clock are functions of the number of steps taken, and what other
-- processes do to the table while the service awaits is an arbitrary function on it.
use ecs_dev_desktop.Common.{
  ℕ, suc, ◌+◌, ◌≡◌, ◌≢◌, ◌≤◌, String, Bool, true, false, Option, none, some, List, ◌∷◌,
}
use ecs_dev_desktop.Result.{ok, err}
use ecs_dev_desktop.Errors.{Message}
use ecs_dev_desktop.States.{WorkspaceId, VolumeId, SnapshotId, TaskId, IsoTimestamp}
use ecs_dev_desktop.Resources.{assert_valid_workspace_resources}
use ecs_dev_desktop.Workspace.{Workspace}
use ecs_dev_desktop.Service.Patch.{patched}

-- A loaded workspace with the version that the read observed.
pub record Loaded : Type 0 where
  pub ws : Workspace
  pub version : ℕ

-- A conditional write is done, is refused because its condition does not hold, or fails.
pub data Write (T : Type 0) : Type 0 where
  written : T → Write T
  refused : Write T
  failed : Message → Write T

-- The documented behaviour of the table: an update that is conditioned on a version is done only on an
-- item that has this version, and stores what the update makes of it.
pub record Database : Type 1 where
  pub Table : Type 0
  pub get : Table → WorkspaceId → Option Loaded
  pub patch : Table → WorkspaceId → ℕ → (Loaded → Loaded) → Write Table
  pub patch_written :
      (t t' : Table) (id : WorkspaceId) (v : ℕ) (f : Loaded → Loaded)
      → patch t id v f ≡ written t'
      → (old : Loaded) × (get t id ≡ some old) × (old.version ≡ v) × (get t' id ≡ some (f old))
  pub patch_other :
      (t t' : Table) (id other : WorkspaceId) (v : ℕ) (f : Loaded → Loaded)
      → patch t id v f ≡ written t'
      → id ≢ other
      → get t' other ≡ get t other

pub data AuditAction : Type 0 where
  session_start session_stop session_recover session_delete session_share_enabled
        session_share_disabled session_restore session_snapshot_lost :
      AuditAction

pub record ComputeTask : Type 0 where
  pub id : TaskId
  pub volume_id : VolumeId
  pub ssh_host : Option String

pub data SnapshotAnswer : Type 0 where
  taken : SnapshotId → SnapshotAnswer
  gone : SnapshotAnswer
  storage_failed : Message → SnapshotAnswer

pub data RunAnswer : Type 0 where
  placed : ComputeTask → RunAnswer
  placement_refused : Message → RunAnswer
  run_failed : Message → RunAnswer

-- The effects that a call of the service has had, newest first.
pub data Effect : Type 0 where
  committed : Workspace → ℕ → Option (AuditAction × String) → Effect
  snapshot_taken : VolumeId → SnapshotId → Effect
  task_started : TaskId → Option SnapshotId → Effect
  task_stopped : TaskId → Effect
  removed : WorkspaceId → ℕ → String → Effect
  snapshot_deleted : SnapshotId → Effect

-- `unfinished` is a loop of the model that ran out of its fuel.
pub data Outcome (A : Type 0) : Type 0 where
  returned : A → Outcome A
  thrown : Message → Outcome A
  unfinished : Outcome A

-- `toWorkspace`: a record with a size that is not accepted is thrown out.
abbrev pub branded : Option Loaded → Outcome (Option Loaded)
branded none = returned none
branded (some l) = elim (assert_valid_workspace_resources l.ws.resources) [
  | ok _ ↦ returned (some l)
  | err m ↦ thrown m
]

-- What the write makes of the stored item: the fields of the transition, and `observedVersion + 1`.
abbrev pub stored : Workspace → ℕ → Loaded → Loaded
stored next observed_version old = record {
  ws = patched next old.ws;
  version = observed_version + 1;
}

module _ (d : Database) where
  pub record Environment : Type 0 where
    pub others : ℕ → d.Table → d.Table
    pub now : ℕ → IsoTimestamp
    pub snapshots : ℕ → VolumeId → SnapshotAnswer
    pub runs : ℕ → Option SnapshotId → RunAnswer
    pub stops : ℕ → TaskId → Option Message
    -- How far `Date.now()` has moved at a step beyond the time slept; it never moves back.
    pub lag : ℕ → ℕ
    pub lag_mono : (n : ℕ) → lag n ≤ lag (suc n)

  pub record World : Type 0 where
    pub table : d.Table
    pub step : ℕ
    pub slept_ms : ℕ
    pub trace : List Effect

abbrev pub M : Database → Type 0 → Type 0
M d A = World d → Outcome A × World d

module _ {d : Database} {A : Type 0} where
  abbrev pub pure : A → M d A
  pure a w = (returned a, w)

  abbrev pub throw : Message → M d A
  throw m w = (thrown m, w)

  -- The outcome of `try { await m }`, for the code of the `catch` to read.
  abbrev pub settled : Outcome A → World d → Outcome (Outcome A) × World d
  settled (returned a) w = (returned (returned a), w)
  settled (thrown m) w = (returned (thrown m), w)
  settled unfinished w = (unfinished, w)

  abbrev pub caught : M d A → M d (Outcome A)
  caught m w = let (r, w') = m w in settled r w'

module _ {d : Database} {A B : Type 0} where
  abbrev pub continue : Outcome A → (A → M d B) → M d B
  continue (returned a) f w = f a w
  continue (thrown m) f w = (thrown m, w)
  continue unfinished f w = (unfinished, w)

  infixl 5 ◌>>=◌
  unfoldable pub ◌>>=◌ : M d A → (A → M d B) → M d B
  ◌>>=◌ m f w = let (r, w') = m w in continue r f w'

module _ {d : Database} where
  -- What an answer of a backend, which has just come, leaves.
  abbrev pub after_patch :
      Workspace
      → ℕ
      → Option (AuditAction × String)
      → World d
      → Write d.Table
      → Outcome Bool × World d
  after_patch next version audit w (written t) =
      (returned true, record w { table = t; trace = committed next version audit ∷ w.trace })
  after_patch next version audit w refused = (returned false, w)
  after_patch next version audit w (failed m) = (thrown m, w)

  abbrev pub after_snapshot : VolumeId → World d → SnapshotAnswer → Outcome SnapshotAnswer × World d
  after_snapshot volume w (taken s) =
      (returned (taken s), record w { trace = snapshot_taken volume s ∷ w.trace })
  after_snapshot volume w answer = (returned answer, w)

  abbrev pub after_stop : World d → Option Message → Outcome (Unit {0}) × World d
  after_stop w none = (returned tt, w)
  after_stop w (some m) = (thrown m, w)

  abbrev pub after_run : Option SnapshotId → World d → RunAnswer → Outcome RunAnswer × World d
  after_run snapshot w (placed t) =
      (returned (placed t), record w { trace = task_started t.id snapshot ∷ w.trace })
  after_run snapshot w answer = (returned answer, w)

module _ {d : Database} (e : Environment d) where
  -- The world when an await returns.
  abbrev pub resume : World d → World d
  resume w = record w { table = e.others w.step w.table; step = suc w.step }

  unfoldable pub clock_now : M d IsoTimestamp
  clock_now w = (returned (e.now w.step), record w { step = suc w.step })

  unfoldable pub find : WorkspaceId → M d (Option Loaded)
  find id w = let w' = resume w in (branded (d.get w'.table id), w')

  -- `true` when the write is done, `false` when it lost to a concurrent update.
  unfoldable pub persist_transition : Workspace → ℕ → Option (AuditAction × String) → M d Bool
  persist_transition next version audit w =
      let w' = resume w in
      after_patch next version audit w' (d.patch w'.table next.id version (stored next version))

  unfoldable pub create_snapshot : VolumeId → M d SnapshotAnswer
  create_snapshot volume w = after_snapshot volume (resume w) (e.snapshots w.step volume)

  -- The request to stop the task is an effect, also if it is then answered by an error.
  unfoldable pub stop_task : TaskId → M d (Unit {0})
  stop_task task w =
      after_stop (record (resume w) { trace = task_stopped task ∷ w.trace }) (e.stops w.step task)

  unfoldable pub run_task : Option SnapshotId → M d RunAnswer
  run_task snapshot w = after_run snapshot (resume w) (e.runs w.step snapshot)

  -- `Date.now()`
  abbrev pub wall : World d → ℕ
  wall w = e.lag w.step + w.slept_ms

  unfoldable pub date_now : M d ℕ
  date_now w = (returned (wall w), w)

  unfoldable pub sleep : ℕ → M d (Unit {0})
  sleep ms w = let w' = resume w in (returned tt, record w' { slept_ms = w.slept_ms + ms })
