-- ===== src/Runtime.antt =====
-- Turn lifecycle of `NimplexRuntime` (packages/runtime/src/runtime.ts).
pub mod Lifecycle
pub mod Recovery
pub mod Finish
pub mod Resume
pub mod Starting
pub mod Acceptance
pub mod Once
pub mod Admission
pub mod Growth
pub mod Executing
pub mod Hosting
pub mod Closing
pub mod Sandboxes
pub mod Closed
pub mod Survival
pub mod Opening
pub mod Stream
pub mod Streaming
mod Tests
mod StreamTests
mod CloseTests
mod HostTests
