-- ===== src/Native.antt =====
-- Native commands (packages/runtime/src/native-bash.ts): a command runs in a sandbox under a
-- supervisor, and another worker can collect it.
pub mod Actions
pub mod Keeps
pub mod Host
pub mod Journal
pub mod Session
pub mod Launch
pub mod Bash
pub mod Quiet
pub mod Rounds
pub mod Launched
pub mod Fit
pub mod Once
pub mod Workers
pub mod Sessionless
pub mod Idle
pub mod Deadline
pub mod Confined
pub mod Samples
mod Tests
