-- ===== src/MemoryStore/Types.antt =====
-- The data of crates/semantic-engine-memory-store/src/lib.rs. A `Duration` is its nanoseconds.
use semantic_engine.Common.{ℕ, Text, List, Option}

pub record MemoryPolicy : Type 0 where
  pub capacity : ℕ
  pub ttl : ℕ

pub data MemoryState : Type 0 where
  active revoked expired evicted : MemoryState

pub record MemoryEntry : Type 0 where
  pub id : Text
  pub context_package_sha256 : Text
  pub target_id : Text
  pub expression : Text
  pub normalized_expression : Text
  pub normalization_version : ℕ
  pub source_resolution_sha256 : Text
  pub created_at_ms : ℕ
  pub last_used_at_ms : ℕ
  pub expires_at_ms : ℕ
  pub use_count : ℕ
  pub state : MemoryState
  pub state_changed_at_ms : Option ℕ

pub data MemoryError : Type 0 where
  invalid_policy invalid_entry missing entropy_unavailable : MemoryError
  database : Text → MemoryError

-- A row of `recognition_memory`: its `row_id` and its columns.
pub record Row : Type 0 where
  pub row_id : ℕ
  pub entry : MemoryEntry

-- The table in the order of `row_id`, with the next `AUTOINCREMENT`.
pub record Table : Type 0 where
  pub rows : List Row
  pub next_row_id : ℕ
