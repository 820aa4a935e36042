-- ===== src/Service/Wake/Capacity.antt =====
-- A placement refusal that arrives when the workspace is up already.
use ecs_dev_desktop.Common.{suc, none, some, ◌∷◌, ◌≡◌, refl}
use ecs_dev_desktop.Errors.{Message}
use ecs_dev_desktop.States.{WorkspaceId, running, error, state_eq}
use ecs_dev_desktop.Lifecycle.{transition}
use ecs_dev_desktop.Workspace.{Workspace}
use ecs_dev_desktop.Workspace.Launch.{defer_placement, mark_provisioning_failed}
use ecs_dev_desktop.Service.World.{
  stored, Database, Environment, World, Loaded, written, returned, branded, committed, ◌>>=◌, find,
  clock_now, persist_transition,
}
use ecs_dev_desktop.Service.Wake.{wait_for_capacity, record_launch_failure}

module _ {d : Database} (e : Environment d) where
  -- A launch that is refused placement while another has made the workspace run (both reads of the
  -- record show it running, with no snapshot yet) commits the state `error` over the running one, and
  -- the record keeps the task that runs.
  pub refusal_fails_running :
      (id : WorkspaceId) (l : Loaded) (refusal : Message) (w : World d)
      → branded (d.get (e.others w.step w.table) id) ≡ returned (some l)
      → branded (d.get (e.others (suc (suc w.step)) (e.others w.step w.table)) id)
        ≡ returned (some l)
      → ((f : Loaded → Loaded)
          → (t : d.Table) × (d.patch
                (e.others
                  (suc (suc (suc (suc w.step))))
                  (e.others (suc (suc w.step)) (e.others w.step w.table)))
                l.ws.id
                l.version
                f
              ≡ written t))
      → l.ws.state ≡ running
      → l.ws.latest_snapshot_id ≡ none
      → (next : Workspace) × ((wait_for_capacity e id refusal w).1.trace
          ≡ committed next l.version none ∷ w.trace)
        × (next.state ≡ error)
        × (next.task_id ≡ l.ws.task_id)
  unfolding wait_for_capacity record_launch_failure find clock_now persist_transition ◌>>=◌
      defer_placement mark_provisioning_failed transition
  refusal_fails_running id l refusal w h1 h2 p s q =
      rw (h1, s, q, h2, s, (p (stored _ l.version)).1) (_, refl, refl, refl)
