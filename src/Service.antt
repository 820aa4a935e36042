-- ===== src/Service.antt =====
-- packages/control-plane/src/workspace-service.ts: the shell that reads a record, performs effects and
-- writes the next record back. Its parts are the children.
mod Tests
pub mod Patch
pub mod World
pub mod Rules
pub mod Awaits
pub mod Finish
mod Table
pub mod Stop
pub mod Wake
pub mod Create
pub mod Connect
pub mod Commit
pub mod Snapshot
pub mod Heartbeat
pub mod Share
pub mod Drift
pub mod Purge
