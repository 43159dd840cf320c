-- ===== src/Service/Config.antt =====
-- The bounds of a configuration, `validate_service_config` of
-- crates/semantic-engine-service/src/lib.rs, and the errors of the stores as the service gives them.
use semantic_engine.Common.{ℕ, Text, Option, text_of, not, ◌||◌, ltb, ◌==◌, ◌++◌}
use semantic_engine.Common.Results.{Result, guard, ok_or}
use semantic_engine.MemoryStore.Types.{
  MemoryPolicy, MemoryError, invalid_policy, invalid_entry, missing, entropy_unavailable, database,
}
use semantic_engine.MemoryStore.Checks.{validate_policy}
use semantic_engine.MemoryStore.Operations.{is_ok}
use semantic_engine.SessionStore.Types.{SessionStoreError, invalid_record, conflict, ended_session}
use semantic_engine.Core.Types.{ResolutionIssue, validation_mismatch, invalid_target, invalid_note}
use semantic_engine.Service.Types.{
  ServiceConfig, ServiceError, invalid_config, session_store, memory_rejected, memory_store,
  resolution, internal,
}

abbrev pub max_recorded : ℕ
max_recorded = 1000000

abbrev pub max_cache_capacity : ℕ
max_cache_capacity = 100000

abbrev pub max_cache_ttl : ℕ
max_cache_ttl = 86400000000000

abbrev pub max_sessions_limit : ℕ
max_sessions_limit = 10000

abbrev pub max_events_limit : ℕ
max_events_limit = 100000

abbrev pub max_event_page : ℕ
max_event_page = 1000

abbrev pub session_contract_version : ℕ
session_contract_version = 2

abbrev pub memory_policy : ServiceConfig → MemoryPolicy
memory_policy config = record { capacity = config.memory_capacity; ttl = config.memory_ttl }

unfoldable pub validate_service_config : ServiceConfig → Result ServiceError (Unit {0})
unfolding is_ok validate_policy
validate_service_config config =
    guard
      (not (
        config.max_recorded_validations == 0
        || ltb max_recorded config.max_recorded_validations
        || ltb max_cache_capacity config.cache_capacity
        || ltb max_cache_ttl config.cache_ttl
        || config.max_sessions == 0
        || ltb max_sessions_limit config.max_sessions
        || config.max_events_per_session == 0
        || ltb max_events_limit config.max_events_per_session
        || not (is_ok (validate_policy (memory_policy config)))))
      invalid_config

-- `Display` of the errors of the stores
unfoldable pub memory_message : MemoryError → Text
memory_message invalid_policy = text_of "recognition memory policy is invalid"
memory_message invalid_entry = text_of "recognition memory entry is invalid"
memory_message missing = text_of "recognition memory entry does not exist"
memory_message entropy_unavailable = text_of "OS randomness is unavailable for recognition memory"
memory_message (database message) = text_of "recognition memory database error: " ++ message

unfoldable pub session_message : SessionStoreError → Text
session_message (SessionStoreError.database message) = text_of "session database error: " ++ message
session_message invalid_record = text_of "session record is invalid"
session_message conflict = text_of "session record conflicts with durable state"
session_message SessionStoreError.missing = text_of "durable session does not exist"
session_message ended_session = text_of "durable session has ended"

-- `impl From<MemoryError> for ServiceError`
unfoldable pub from_memory_error : MemoryError → ServiceError
unfolding memory_message
from_memory_error (database message) = memory_store (memory_message (database message))
from_memory_error entropy_unavailable = memory_store (memory_message entropy_unavailable)
from_memory_error error = memory_rejected (memory_message error)

-- `impl From<SessionStoreError> for ServiceError`
unfoldable pub from_session_error : SessionStoreError → ServiceError
unfolding session_message
from_session_error error = session_store (session_message error)

-- `resolution_error`, with the names that `Debug` gives.
unfoldable pub resolution_error : ResolutionIssue → ServiceError
resolution_error validation_mismatch = resolution (text_of "ValidationMismatch")
resolution_error invalid_target = resolution (text_of "InvalidTarget")
resolution_error invalid_note = resolution (text_of "InvalidNote")

-- `now_ms` of a reading of the system clock.
unfoldable pub now_or : Option ℕ → Result ServiceError ℕ
now_or reading = ok_or reading (internal (text_of "system time is out of range"))
