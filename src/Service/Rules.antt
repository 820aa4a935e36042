-- ===== src/Service/Rules.antt =====
-- Rules for calls of the service: what holds of the effects before a call, and what of its outcome
-- and of the effects after it. One rule for each way in which the code composes calls, and one for
-- each primitive.
use ecs_dev_desktop.Common.{ℕ, String, Bool, true, false, Option, none, some, List, ◌∷◌}
use ecs_dev_desktop.Errors.{Message}
use ecs_dev_desktop.States.{WorkspaceId, VolumeId, SnapshotId, TaskId}
use ecs_dev_desktop.Workspace.{Workspace}
use ecs_dev_desktop.Service.World.{
  Database, Environment, World, M, Write, written, refused, failed, Effect, committed,
  snapshot_taken, task_started, task_stopped, Outcome, returned, thrown, unfinished, AuditAction,
  SnapshotAnswer, taken, gone, storage_failed, RunAnswer, placed, placement_refused, run_failed,
  ComputeTask, pure, throw, caught, ◌>>=◌, clock_now, find, persist_transition, create_snapshot,
  stop_task, run_task, date_now, sleep, continue, settled, resume, after_patch, after_snapshot,
  after_stop, after_run, stored,
}

abbrev pub Log : Type 1
Log = List Effect → Type 0

pub record Triple {d : Database} {A : Type 0} (P : Log) (m : M d A) (Q : Outcome A → Log)
    : Type 0 where
  pub holds : (w : World d) → P w.trace → Q (m w).0 (m w).1.trace

-- A call that keeps a property of the effects, however it ends.
abbrev pub Keeps : {d : Database} {A : Type 0} → Log → M d A → Type 0
Keeps P m = Triple P m (λ _. P)

module _ {d : Database} {A B : Type 0} (Q : Outcome A → Log) (R : Outcome B → Log) where
  continue-holds :
      (f : A → M d B) (r : Outcome A) (w : World d)
      → ((a : A) → Triple (Q (returned a)) (f a) R)
      → ((x : Message) (t : List Effect) → Q (thrown x) t → R (thrown x) t)
      → ((t : List Effect) → Q unfinished t → R unfinished t)
      → Q r w.trace
      → R (continue r f w).0 (continue r f w).1.trace
  continue-holds f (returned a) w k x u q = (k a).holds w q
  continue-holds f (thrown m) w k x u q = x m w.trace q
  continue-holds f unfinished w k x u q = u w.trace q

module _ {d : Database} {A : Type 0} (P : Log) where
  settled-keeps : (r : Outcome A) (w : World d) → P w.trace → P (settled r w).1.trace
  settled-keeps (returned a) w p = p
  settled-keeps (thrown m) w p = p
  settled-keeps unfinished w p = p

module _ {A : Type 0} where
  abbrev pub Caught : (Outcome A → Log) → Outcome (Outcome A) → Log
  Caught Q (returned r) t = Q r t
  Caught Q (thrown x) t = ⊥
  Caught Q unfinished t = Q unfinished t

module _ {d : Database} {A : Type 0} (Q : Outcome A → Log) where
  settled-holds :
      (r : Outcome A) (w : World d) → Q r w.trace → Caught Q (settled r w).0 (settled r w).1.trace
  settled-holds (returned a) w q = q
  settled-holds (thrown m) w q = q
  settled-holds unfinished w q = q

module _ {d : Database} {A B : Type 0} {P : Log} {Q : Outcome A → Log} {R : Outcome B → Log} where
  pub bind-Triple :
      {m : M d A} {f : A → M d B}
      → Triple P m Q
      → ((a : A) → Triple (Q (returned a)) (f a) R)
      → ((x : Message) (t : List Effect) → Q (thrown x) t → R (thrown x) t)
      → ((t : List Effect) → Q unfinished t → R unfinished t)
      → Triple P (m >>= f) R
  unfolding ◌>>=◌
  bind-Triple {m = m} {f = f} h k x u = record {
    holds = λ w p. continue-holds Q R f (m w).0 (m w).1 k x u (h.holds w p);
  }

module _ {d : Database} {A : Type 0} {P : Log} where
  pub pure-Triple :
      {Q : Outcome A → Log} {a : A}
      → ((t : List Effect) → P t → Q (returned a) t)
      → Triple {d = d} P (pure a) Q
  pure-Triple h = record { holds = λ w p. h w.trace p }

  pub pure-Keeps : {a : A} → Keeps {d = d} P (pure a)
  pure-Keeps = record { holds = λ w p. p }

  pub throw-Keeps : {m : Message} → Keeps {d = d} {A = A} P (throw m)
  throw-Keeps = record { holds = λ w p. p }

  pub caught-Triple :
      {Q : Outcome A → Log} {m : M d A} → Triple P m Q → Triple P (caught m) (Caught Q)
  caught-Triple {Q = Q} {m = m} h = record {
    holds = λ w p. settled-holds Q (m w).0 (m w).1 (h.holds w p);
  }

  pub caught-Keeps : {m : M d A} {P0 : Log} → Triple P0 m (λ _. P) → Triple P0 (caught m) (λ _. P)
  caught-Keeps {m = m} h = record { holds = λ w p. settled-keeps P (m w).0 (m w).1 (h.holds w p) }

  pub bind-Keeps :
      {B : Type 0} {m : M d A} {f : A → M d B}
      → Keeps P m
      → ((a : A) → Keeps P (f a))
      → Keeps P (m >>= f)
  bind-Keeps h k = bind-Triple h k (λ x t p. p) (λ t p. p)

module _ {d : Database} (e : Environment d) {P : Log} where
  pub clock_now-Keeps : Keeps P (clock_now e)
  unfolding clock_now
  clock_now-Keeps = record { holds = λ w p. p }

  pub date_now-Keeps : Keeps P (date_now e)
  unfolding date_now
  date_now-Keeps = record { holds = λ w p. p }

  pub sleep-Keeps : (ms : ℕ) → Keeps P (sleep e ms)
  unfolding sleep
  sleep-Keeps ms = record { holds = λ w p. p }

  pub find-Keeps : (id : WorkspaceId) → Keeps P (find e id)
  unfolding find
  find-Keeps id = record { holds = λ w p. p }

module _ {d : Database} (P : Log) where
  after_snapshot-keeps :
      (volume : VolumeId) (w : World d) (x : SnapshotAnswer)
      → ((s : SnapshotId) (t : List Effect) → P t → P (snapshot_taken volume s ∷ t))
      → P w.trace
      → P (after_snapshot volume w x).1.trace
  after_snapshot-keeps volume w (taken s) h p = h s w.trace p
  after_snapshot-keeps volume w gone h p = p
  after_snapshot-keeps volume w (storage_failed m) h p = p

  after_stop-holds : (w : World d) (x : Option Message) → P w.trace → P (after_stop w x).1.trace
  after_stop-holds w none p = p
  after_stop-holds w (some m) p = p

module _ {d : Database} (P : Log) (Q : Outcome Bool → Log) where
  after_patch-holds :
      (next : Workspace) (v : ℕ) (audit : Option (AuditAction × String)) (w : World d)
      (x : Write d.Table)
      → ((t : List Effect) → P t → Q (returned true) (committed next v audit ∷ t))
      → ((t : List Effect) → P t → Q (returned false) t)
      → ((m : Message) (t : List Effect) → P t → Q (thrown m) t)
      → P w.trace
      → Q (after_patch next v audit w x).0 (after_patch next v audit w x).1.trace
  after_patch-holds next v audit w (written t) done lost broken p = done w.trace p
  after_patch-holds next v audit w refused done lost broken p = lost w.trace p
  after_patch-holds next v audit w (failed m) done lost broken p = broken m w.trace p

module _ {d : Database} (P : Log) (Q : Outcome RunAnswer → Log) where
  after_run-holds :
      (snapshot : Option SnapshotId) (w : World d) (x : RunAnswer)
      → ((k : ComputeTask) (t : List Effect)
          → P t
          → Q (returned (placed k)) (task_started k.id snapshot ∷ t))
      → ((m : Message) (t : List Effect) → P t → Q (returned (placement_refused m)) t)
      → ((m : Message) (t : List Effect) → P t → Q (returned (run_failed m)) t)
      → P w.trace
      → Q (after_run snapshot w x).0 (after_run snapshot w x).1.trace
  after_run-holds snapshot w (placed k) h r f p = h k w.trace p
  after_run-holds snapshot w (placement_refused m) h r f p = r m w.trace p
  after_run-holds snapshot w (run_failed m) h r f p = f m w.trace p

module _ {d : Database} (e : Environment d) {P : Log} where
  pub create_snapshot-Keeps :
      (volume : VolumeId)
      → ((s : SnapshotId) (t : List Effect) → P t → P (snapshot_taken volume s ∷ t))
      → Keeps P (create_snapshot e volume)
  unfolding create_snapshot
  create_snapshot-Keeps volume h = record {
    holds = λ w p. after_snapshot-keeps P volume (resume e w) (e.snapshots w.step volume) h p;
  }

  pub stop_task-Triple :
      {R : Log} (task : TaskId)
      → ((t : List Effect) → P t → R (task_stopped task ∷ t))
      → Triple P (stop_task e task) (λ _. R)
  unfolding stop_task
  stop_task-Triple {R = R} task h = record {
    holds = λ w p.
        after_stop-holds R (record (resume e w) { trace = task_stopped task ∷ w.trace })
          (e.stops w.step task) (h w.trace p);
  }

  pub persist-Triple :
      {Q : Outcome Bool → Log} (next : Workspace) (v : ℕ) (audit : Option (AuditAction × String))
      → ((t : List Effect) → P t → Q (returned true) (committed next v audit ∷ t))
      → ((t : List Effect) → P t → Q (returned false) t)
      → ((m : Message) (t : List Effect) → P t → Q (thrown m) t)
      → Triple P (persist_transition e next v audit) Q
  unfolding persist_transition
  persist-Triple {Q = Q} next v audit done lost broken = record {
    holds = λ w p.
        after_patch-holds P Q next v audit (resume e w)
          (d.patch (resume e w).table next.id v (stored next v)) done lost broken p;
  }

  pub run_task-Triple :
      {Q : Outcome RunAnswer → Log} (snapshot : Option SnapshotId)
      → ((k : ComputeTask) (t : List Effect)
          → P t
          → Q (returned (placed k)) (task_started k.id snapshot ∷ t))
      → ((m : Message) (t : List Effect) → P t → Q (returned (placement_refused m)) t)
      → ((m : Message) (t : List Effect) → P t → Q (returned (run_failed m)) t)
      → Triple P (run_task e snapshot) Q
  unfolding run_task
  run_task-Triple {Q = Q} snapshot h r f = record {
    holds = λ w p. after_run-holds P Q snapshot (resume e w) (e.runs w.step snapshot) h r f p;
  }
