-- ===== src/Service/Stop/Guard.antt =====
-- The recency guard of a stop by the idle sweep.
use Prim.Native.Nat.{max}
use ecs_dev_desktop.Common.{
  ℕ, ◌+◌, ◌<◌, String, true, some, ◌≡◌, ◌⊎◌, inl, inr, refl, arith, Bool-cases, or_else, ltb,
}
use ecs_dev_desktop.Result.{err, Result-cases}
use ecs_dev_desktop.Errors.{DomainError}
use ecs_dev_desktop.States.{WorkspaceId, WorkspaceEvent}
use ecs_dev_desktop.Lifecycle.{transition}
use ecs_dev_desktop.Service.World.{Database, Environment, World, Loaded, returned, clock_now, ◌>>=◌}
use ecs_dev_desktop.Service.Stop.{stop_loaded, idle_guard, is_always_on}

module _ {d : Database} (e : Environment d) where
  -- A stop by the idle sweep of a workspace that is always on, or that was active less than the larger
  -- of the sweep's threshold and its own before now, is refused and leaves the table and the effects
  -- as they were.
  pub idle_stop_skips :
      (id : WorkspaceId) (l : Loaded) (actor : String) (ms : ℕ) (w : World d)
      → (is_always_on l.ws.always_on ≡ true)
        ⊎ (e.now w.step < l.ws.last_activity + max ms (or_else l.ws.idle_stop_ms 0))
      → (x : DomainError) × ((stop_loaded e id l actor (some ms) w).0 ≡ returned (err x))
        × ((stop_loaded e id l actor (some ms) w).1.table ≡ w.table)
        × ((stop_loaded e id l actor (some ms) w).1.trace ≡ w.trace)
  unfolding stop_loaded idle_guard clock_now ◌>>=◌
  idle_stop_skips id l actor ms w h =
      elim (Result-cases (transition l.ws.state WorkspaceEvent.stop)) [
        | inr (x, t) ↦ rw t (x, refl, refl, refl)
        | inl (s, t) ↦ rw t (elim (Bool-cases (is_always_on l.ws.always_on)) [
          | inl b ↦ rw b (_, refl, refl, refl)
          | inr b ↦
              let early : ltb (e.now w.step)
                    (l.ws.last_activity + max ms (or_else l.ws.idle_stop_ms 0))
                  ≡ true =
                ground arith in
              rw (b, early) (_, refl, refl, refl)
        ])
      ]
