-- ===== src/Checkpoints.antt =====
-- The commit steps of a turn (packages/runtime/src/checkpoints.ts) and the workspace's limits
-- (packages/core/src/workspace.ts).
pub mod Steps
pub mod Settlement
pub mod Minimal
pub mod Delta
pub mod Guards
pub mod History
mod Tests
