-- ===== src/ContextIndex.antt =====
-- crates/semantic-engine-context-index: signed channels of context packages and their revocations.
pub mod Types
pub mod Checks
pub mod Revocations
pub mod Channel
pub mod Tombstones
pub mod Advance
pub mod History
pub mod Revoked
pub mod Paths
pub mod Samples
mod Tests
