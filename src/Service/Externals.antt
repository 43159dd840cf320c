-- ===== src/Service/Externals.antt =====
-- What the service calls: SHA-256, `serde_json`, the bits of a float, the clocks, the engine under
-- the stores, and the audit store behind an interface.
use semantic_engine.Common.{ℕ, Text, List, Option}
use semantic_engine.Common.Results.{Result}
use semantic_engine.Common.Machine.{Io, Clock}
use semantic_engine.Core.Types.{Validation, OperatorResolution}
use semantic_engine.Service.Types.{StartSession, SessionEvent, SessionValidation}

-- A failure of `serde_json` is its message.
pub record Externals (F : Type 0) : Type 0 where
  pub sha256 : List ℕ → List ℕ
  pub to_bits : F → ℕ
  pub encode_definition : StartSession F → Result Text Text
  pub encode_event : SessionEvent F → Result Text Text
  pub encode_validation : SessionValidation F → Result Text Text

-- The operations of `AuditStore` that the service calls, on a state `A`, with the answers of the
-- engine and the reading of the clock; a failure is the message of its `AuditError`.
pub record Audit (F A : Type 0) : Type 0 where
  pub record_validation : Io → Clock → A → Validation F → Option Text → A × Result Text (Unit {0})
  pub record_resolution : Io → Clock → A → OperatorResolution → A × Result Text (Unit {0})
  pub purge_all : Io → A → A × Result Text ℕ

-- What one call of the service reads from outside: its readings of the monotonic clock, those of
-- `prune_expired_cache` apart, and of the system clock in order (`none` before the epoch or past the range of `u64`), the answers of the
-- engine to the stores' statements, and the random bytes.
pub record Env : Type 0 where
  pub pruned_at : ℕ → ℕ
  pub instant : ℕ → ℕ
  pub now_ms : ℕ → Option ℕ
  pub audit_io : Io
  pub audit_clock : Clock
  pub session_io : ℕ → Io
  pub memory_io : ℕ → Io
  pub entropy : Option (List ℕ)
