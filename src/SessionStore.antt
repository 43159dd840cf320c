-- ===== src/SessionStore.antt =====
-- crates/semantic-engine-session-store: the durable sessions. Each SQL statement of the source is
-- the operation on the three tables that it denotes, and may fail by the engine's answer.
pub mod Types
pub mod Checks
pub mod Rows
pub mod Operations
pub mod Inversion
pub mod Window
pub mod History
pub mod Contract
mod Tests
pub mod Loading
pub mod Loaded
