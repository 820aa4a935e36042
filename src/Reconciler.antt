-- ===== src/Reconciler.antt =====
-- services/reconciler/src/index.ts: the sweeps that converge the records and the resources of a fleet.
-- Ports holds what a sweep calls, Sweeps and Reapers the sweeps, and Tick one maintenance tick.
mod Tests
pub mod Action
pub mod Ports
pub mod Sweeps
pub mod Reapers
pub mod Tick
pub mod Counts
pub mod Accounts
pub mod Trace
pub mod Stages
pub mod Once
pub mod Order
pub mod Emits
pub mod Spares
pub mod Calls
use ecs_dev_desktop.Common.{
  ℕ, ◌+◌, Bool, true, false, not, Option, none, some, List, map, leb, or_else, filter,
}
use ecs_dev_desktop.Maintenance.{is_retained}
use ecs_dev_desktop.States.{WorkspaceId, IsoTimestamp}

pub record ActiveWorkspace : Type 0 where
  pub id : WorkspaceId
  pub last_activity : IsoTimestamp
  pub idle_stop_ms : Option ℕ
  pub always_on : Option Bool

-- `w.alwaysOn !== true`
abbrev pub may_stop : ActiveWorkspace → Bool
may_stop w = not (is_retained w.always_on)

-- The age is compared by addition, since the subtraction of two instants may be negative.
abbrev pub is_idle : IsoTimestamp → ℕ → ActiveWorkspace → Bool
is_idle now idle_threshold_ms w =
    leb (w.last_activity + or_else w.idle_stop_ms idle_threshold_ms) now

unfoldable pub select_idle : List ActiveWorkspace → IsoTimestamp → ℕ → List WorkspaceId
select_idle active now idle_threshold_ms =
    map (λ w. w.id) (filter (is_idle now idle_threshold_ms) (filter may_stop active))
