-- ===== src/Store.antt =====
-- The runtime's store (packages/runtime/src/store.ts): sessions, turns, events, workspaces, the
-- sandbox ledger and accepted inputs, in one SQLite database.
pub mod Records
pub mod Members
pub mod Tables
pub mod Events
pub mod Reading
pub mod Samples
mod Tests
