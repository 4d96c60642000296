-- ===== src/Storage.antt =====
-- Pi's storage port on SQLite (packages/runtime/src/pi-storage/sqlite.ts): the journal of commits
-- and the projections that are read. One session's rows are a value of `Tables`; every statement of
-- the source selects by tenant and session, and every key of the schema begins with them.
pub mod Records
pub mod Ports
pub mod Projections
pub mod Journal
pub mod Fork
pub mod Replay
pub mod Commits
pub mod Reach
pub mod Queries
pub mod Branch
pub mod Values
pub mod Totals
pub mod Invariants
pub mod Bounds
pub mod Atomic
mod Tests
