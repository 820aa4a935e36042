-- ===== src/Service/Stop/Window.antt =====
-- services/reconciler/src/index.ts and packages/control-plane/src/workspace-service.ts: the idle window of
-- a workspace, as the sweep reads it and as the guard of the stop reads it.
use ecs_dev_desktop.Common.{
  ℕ, ◌+◌, ◌<◌, ◌≤◌, ◌≡◌, refl, String, none, some, [], ◌∷◌, arith, inr, le→leb,
}
use ecs_dev_desktop.Result.{err}
use ecs_dev_desktop.Errors.{DomainError}
use ecs_dev_desktop.States.{WorkspaceId}
use ecs_dev_desktop.Service.World.{Database, Environment, World, Loaded, returned}
use ecs_dev_desktop.Service.Stop.{stop_loaded}
use ecs_dev_desktop.Service.Stop.Guard.{idle_stop_skips}
use ecs_dev_desktop.Reconciler.{ActiveWorkspace, select_idle}

-- A record as the list of active workspaces shows it.
abbrev pub listed_as : WorkspaceId → Loaded → ActiveWorkspace
listed_as id l = record {
  id = id;
  last_activity = l.ws.last_activity;
  idle_stop_ms = l.ws.idle_stop_ms;
  always_on = l.ws.always_on;
}

module _ {d : Database} (e : Environment d) where
  -- A workspace that is not always on and whose own idle window is over, while the default window is
  -- not, is selected by the idle sweep, and the stop that the sweep then asks for, with the default
  -- window as its guard, is refused and changes nothing.
  pub short_window_waits :
      (id : WorkspaceId) (l : Loaded) (actor : String) (own ms : ℕ) (w : World d)
      → l.ws.always_on ≡ none
      → l.ws.idle_stop_ms ≡ some own
      → l.ws.last_activity + own ≤ e.now w.step
      → e.now w.step < l.ws.last_activity + ms
      → (select_idle (listed_as id l ∷ []) (e.now w.step) ms ≡ id ∷ [])
        × (x : DomainError) × ((stop_loaded e id l actor (some ms) w).0 ≡ returned (err x))
        × ((stop_loaded e id l actor (some ms) w).1.table ≡ w.table)
  unfolding select_idle
  short_window_waits id l actor own ms w on window past early =
      let (x, r, t, _) = idle_stop_skips e id l actor ms w (inr (rw window (omega arith))) in
      (rw (on, window, le→leb (l.ws.last_activity + own) (e.now w.step) past) refl, x, r, t)
