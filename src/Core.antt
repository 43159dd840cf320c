-- ===== src/Core.antt =====
-- crates/semantic-engine-core: the validation of a submission against the targets of a round.
pub mod Types
pub mod Libraries
pub mod Limits
pub mod Normalize
pub mod Fuzzy
pub mod Validate
pub mod Resolve
pub mod Samples
mod Tests
