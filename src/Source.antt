-- ===== src/Source.antt =====
-- crates/semantic-engine-source: the configured input sources, their revisions and their
-- checkpoints.
pub mod Types
pub mod Checks
pub mod Store
pub mod Rows
pub mod Concurrency
pub mod Invariant
pub mod RoundTrip
pub mod Samples
mod Tests
