-- ===== src/Service.antt =====
-- crates/semantic-engine-service: the sessions, the deduplication, the cache and the recognition
-- memory around the validator, over the stores.
pub mod Types
pub mod Externals
pub mod Config
pub mod Fingerprints
pub mod Cache
pub mod Records
pub mod Recognition
pub mod Validate
pub mod Dedup
pub mod Sessions
pub mod Submissions
pub mod Answers
pub mod Lifecycle
pub mod Starts
pub mod Samples
mod Tests
pub mod Bounds
pub mod Capacity
pub mod SessionBounds
pub mod StepBounds
pub mod History
pub mod Memory
pub mod Learning
pub mod AuditLog
mod AuditTests
pub mod Restore
pub mod RestoredRows
pub mod Restored
pub mod Purge
pub mod Forgotten
mod RestoreTests
