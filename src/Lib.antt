-- ===== src/Lib.antt =====
-- Verification library of ecs-dev-desktop, the control plane of cloud development workspaces: containers
-- that scale to zero when idle and wake from a snapshot of their volume.
--
-- The program. A workspace is a record with a state. packages/core holds the functional core: the
-- machine of the states, the operations on a record, and the decisions of the maintenance sweeps and of
-- the control plane's own scaling. packages/control-plane holds the shell, `WorkspaceService`: it reads a
-- record with its version, applies an operation of the core, writes the result back under the condition
-- that the version is still the one it read, and asks the storage and compute backends for snapshots and
-- tasks before or after the write. Callers (the web routes, the gateway, the reconciler's sweeps) run
-- concurrently on the same table and meet only there. packages/authz says who may do what.
--
-- The files, by the code they model:
--   Result, Errors, States: packages/core/src/result.ts, domain/errors.ts, domain/ids.ts, and the states,
--     events and actions of lifecycle/workspace-state-machine.ts. An id is a string, a time is a number of
--     milliseconds, and a reason is a constructor with the values that its template puts in.
--   Lifecycle: the transitions and the actions of a state (lifecycle/workspace-state-machine.ts); Connect:
--     `planConnect` (lifecycle/connect.ts). Lifecycle/Paths has their laws.
--   Resources: domain/workspace-resources.ts and domain/editor.ts (no results of its own).
--   Workspace: the record and how one is made (domain/workspace.ts). Workspace/Stop, Workspace/Launch and
--     Workspace/Reports are its operations, one function each, named as in the source with underscores.
--     Workspace/Changes names each operation with its arguments, so that a history is a list; the modules
--     below it prove what every history keeps. Workspace/Placement is the wait for capacity, and
--     Workspace/Leftovers what one session leaves on the record for the next.
--   Maintenance: the selections of maintenance/select.ts, and the sweeps that delete what they select.
--   Scale: system/control-plane-scale.ts.
--   Access: packages/authz/src/index.ts, domain/quota.ts and domain/proxy-authz.ts.
--     Access/Path reads the workspace of a proxied path, and Access/Path/Addressed says which paths have one.
--   Cost: packages/core/src/observability/cost.ts. `Scan` is the state of the full scan's loop and `Walk` that
--     of the checkpoint walk. Cost/Price has the prices and the report of a fleet; Cost/Totals, Cost/Resume,
--     Cost/Bill, Cost/Window, Cost/Difference and Cost/Report have the laws. Cost/Sessions and
--     Cost/Ledger are packages/control-plane/src/cost-service.ts, where a map is a list in the order of its
--     insertions; Cost/Grouped, Cost/Born and Cost/Rollup relate its two reports, and Cost/Refresh
--     says when the checkpoints are written again.
--   Catalog: packages/core/src/domain/base-image-catalog.ts, with `trim` of the language on the points of a
--     string; Catalog/Trimmed, Catalog/Labels and Catalog/Entries have its lemmas.
--   Traffic: packages/core/src/system/traffic-filter.ts. Traffic/Meaning says what a policy means for a
--     request, and Traffic/Compiled compares the compiled rules with it. A number
--     of a network is a natural number, so that the checks for a fraction and a negative number are left out.
--   Reconciler: services/reconciler/src/index.ts. Reconciler/Ports is what the class is given, Sweeps, Reapers
--     and Tick are its methods. Trace wraps the ports so that every call is logged; Stages, Once and Emits are
--     the rules by which Order, Spares and Calls speak of the log; Counts and Accounts speak of the result.
--   Service: packages/control-plane/src/workspace-service.ts. Service/World is the shell's world as explicit
--     state: the table, the number of steps taken, the time slept, and the effects so far, newest first.
--     A call is a function from a world to an outcome and a world; an exception is the outcome `thrown`.
--     Before each step that the code awaits, an arbitrary function changes the table, which stands for
--     all that other processes do meanwhile. Service/Patch is what a write leaves in the stored item.
--     Service/Stop, Service/Finish, Service/Wake, Service/Create, Service/Connect, Service/Snapshot,
--     Service/Heartbeat, Service/Share, Service/Purge and Service/Drift are the operations, each split where
--     the code branches on an answer, and Service/Commit is the conditional write.
--     Service/Rules has one rule for each way to compose calls, and Service/Awaits counts the calls that an
--     operation awaits.
--
-- What is a parameter. The table is the record `Database` of Service/World with the laws of a conditional
-- write, and Service/Table is an instance of it. A purge's conditional removal is the record `Purging` of
-- Service/Purge, with an instance in the same file; the records that the sweep of the tombstones reads are
-- an argument of it. The answers of the storage and compute backends, the snapshots that the storage lists
-- and the clock are arbitrary functions of the step. `Date.now()` may jump forward at a step, but never back,
-- and a sleep takes at least its time. The reconciler runs on any world, and its ports are arbitrary
-- actions on it. `Date.parse` of the ledger's timestamps, `localeCompare` of ids and the floating-point
-- arithmetic of money are arbitrary functions; where an order is needed, it is a hypothesis.
--
-- Fuel. The wait for another caller's wake has 721 polls: the time-out is 180 s and a poll sleeps 250 ms,
-- so that the 721st poll is past the deadline. So the fuel is enough. The loops of a snapshot
-- and of a heartbeat make two attempts, as in the source, and recurse on the retries that are left.
--
-- Not modelled: the projection of a record to its DTO (the record is returned instead), metrics and the
-- text of audit entries, the options of a launch other than its snapshot, creation under a quota, the end
-- of a deletion and undeletion through the service, log lines, the service of the image catalog, how the
-- checkpoints of the cost ledger are stored, the text of an issue of a
-- report, observability other than cost, and the packages that bind AWS, the web app, the editors
-- and the command line.
mod Common
pub mod Result
pub mod States
pub mod Errors
pub mod Lifecycle
pub mod Connect
pub mod Resources
pub mod Workspace
pub mod Maintenance
pub mod Scale
pub mod Access
pub mod Service
pub mod Cost
pub mod Reconciler
pub mod Traffic
pub mod Catalog
