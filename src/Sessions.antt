-- ===== src/Sessions.antt =====
-- Sessions and the turns that are seeded in them (packages/runtime/src/sessions.ts), the model
-- that a turn selects (packages/runtime/src/models.ts) and the conversation that it continues
-- (packages/core/src/conversation.ts).
pub mod Requests
pub mod Equality
pub mod Attachments
pub mod Overlay
pub mod Conversation
pub mod Whole
pub mod Seeding
pub mod Plan
pub mod Stored
pub mod Branching
pub mod Copying
pub mod Forking
pub mod Snapshots
pub mod Inheritance
pub mod Forked
pub mod Owner
pub mod Descent
pub mod Samples
mod Tests
mod ForkTests
