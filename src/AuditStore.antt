-- ===== src/AuditStore.antt =====
-- crates/semantic-engine-audit-store: the answers of the engine and the resolutions of operators, on
-- record for a bounded time.
pub mod Types
pub mod Checks
pub mod Operations
pub mod Record
pub mod Rows
pub mod Retention
pub mod Inversion
pub mod Invariant
pub mod RoundTrip
pub mod Resolutions
pub mod Samples
mod Tests
