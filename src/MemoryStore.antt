-- ===== src/MemoryStore.antt =====
-- crates/semantic-engine-memory-store: the bounded recognition memory. Each SQL statement of the
-- source is the operation on the table that it denotes, and may fail by the engine's answer.
pub mod Types
pub mod Checks
pub mod Rows
pub mod Operations
pub mod Capacity
pub mod Recall
mod Tests
