-- ===== src/Service/Finish/Waits.antt =====
-- The end of a stop within its grace, and the order of its effects.
use ecs_dev_desktop.Common.{
  ◌+◌, ◌<◌, true, false, suc, Option, ◌∷◌, none, some, ◌≡◌, refl, arith, ltb,
}
use ecs_dev_desktop.Result.{ok}
use ecs_dev_desktop.States.{WorkspaceId, TaskId, IsoTimestamp, stopping, state_eq}
use ecs_dev_desktop.Service.World.{
  stored, Database, Environment, World, Loaded, returned, clock_now, resume, ◌>>=◌, refused,
  task_stopped, persist_transition, stop_task,
}
use ecs_dev_desktop.Service.Stop.{default_stop_grace_ms}
use ecs_dev_desktop.Service.Finish.{finish_loaded, finish_reread, commit_finished}
use ecs_dev_desktop.Service.Rules.{bind-Keeps, find-Keeps, pure-Keeps}
use ecs_dev_desktop.Lifecycle.{transition}
use ecs_dev_desktop.Workspace.{Workspace}
use ecs_dev_desktop.Workspace.Stop.{FreshSnapshot, mark_stopped}

module _ {d : Database} (e : Environment d) where
  -- While less than the grace has passed since the request, the end of a stop succeeds and has no
  -- effect: a user can still cancel.
  pub finish_waits :
      (id : WorkspaceId) (l : Loaded) (asked : IsoTimestamp) (w : World d)
      → l.ws.stop_requested_at ≡ some asked
      → e.now w.step < asked + default_stop_grace_ms
      → ((finish_loaded e id l false w).0 ≡ returned (ok tt))
        × ((finish_loaded e id l false w).1.table ≡ w.table)
        × ((finish_loaded e id l false w).1.trace ≡ w.trace)
  unfolding finish_loaded clock_now ◌>>=◌
  finish_waits id l asked w h q =
      let early : ltb (e.now w.step) (asked + 6000) ≡ true = ground arith in
      rw (h, early) (refl, refl, refl)

  commit_lost :
      (id : WorkspaceId) (l : Loaded) (next : Workspace) (w : World d)
      → ((f : Loaded → Loaded) → d.patch (e.others w.step w.table) next.id l.version f ≡ refused)
      → (commit_finished e id l (ok next) w).1.trace ≡ w.trace
  unfolding persist_transition ◌>>=◌
  commit_lost id l next w r = rw (r (stored next l.version)) (
      (bind-Keeps {P = λ t. t ≡ w.trace} (find-Keeps e id) (λ o. pure-Keeps)).holds (resume e w)
        refl)

  -- The task of a record that is still stopping is asked to stop before the record is written: when the
  -- write is then refused, the task is gone all the same and nothing was committed.
  pub finish_stops_before_commit :
      (id : WorkspaceId) (l : Loaded) (task : TaskId) (fresh : Option FreshSnapshot)
      (at : IsoTimestamp) (w : World d)
      → l.ws.state ≡ stopping
      → l.ws.task_id ≡ some task
      → e.stops w.step task ≡ none
      → ((f : Loaded → Loaded)
          → d.patch (e.others (suc w.step) (e.others w.step w.table)) l.ws.id l.version f ≡ refused)
      → (finish_reread e id fresh at (some l) w).1.trace ≡ task_stopped task ∷ w.trace
  unfolding finish_reread mark_stopped transition stop_task ◌>>=◌
  finish_stops_before_commit id l task fresh at w s t q r =
      rw (s, t, q)
        (commit_lost id l _ (record (resume e w) { trace = task_stopped task ∷ w.trace }) r)
