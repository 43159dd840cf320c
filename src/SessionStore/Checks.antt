-- ===== src/SessionStore/Checks.antt =====
-- The validations of crates/semantic-engine-session-store/src/lib.rs.
use semantic_engine.Common.{
  ℕ, Bool, true, false, Option, none, some, not, ◌||◌, ltb, ◌==◌, is_empty, byte_len,
}
use semantic_engine.Common.Results.{Result, guard}
use semantic_engine.Common.Machine.{to_i64_or}
use semantic_engine.SessionStore.Types.{
  StoredSessionHeader, StoredSessionState, active, ended, StoredEvent, StoredDelivery,
  SessionStoreError, invalid_record,
}

abbrev pub max_events_per_session : ℕ
max_events_per_session = 100000

abbrev pub max_deliveries_per_session : ℕ
max_deliveries_per_session = 1000000

abbrev pub max_definition_bytes : ℕ
max_definition_bytes = 8388608

abbrev pub max_payload_bytes : ℕ
max_payload_bytes = 1048576

abbrev pub is_ended : StoredSessionState → Bool
is_ended active = false
is_ended ended = true

abbrev pub is_some {ℓ} : {A : Type ℓ} → Option A → Bool
is_some none = false
is_some (some a) = true

abbrev pub differ : Bool → Bool → Bool
differ true b = not b
differ false b = b

unfoldable pub validate_header : StoredSessionHeader → Result SessionStoreError (Unit {0})
validate_header header =
    guard
      (not (
        is_empty header.session_id
        || is_empty header.definition_json
        || ltb max_definition_bytes (byte_len header.definition_json)
        || differ (is_some header.ended_at_ms) (is_ended header.state)))
      invalid_record

unfoldable pub validate_event : StoredEvent → Result SessionStoreError (Unit {0})
validate_event event =
    guard
      (not (
        event.sequence == 0
        || is_empty event.payload_json
        || ltb max_payload_bytes (byte_len event.payload_json)))
      invalid_record

unfoldable pub validate_delivery : StoredDelivery → Result SessionStoreError (Unit {0})
validate_delivery delivery =
    guard
      (not (
        is_empty delivery.message_id
        || delivery.sequence == 0
        || is_empty delivery.validation_json
        || ltb max_payload_bytes (byte_len delivery.validation_json)))
      invalid_record

unfoldable pub validate_limits : ℕ → ℕ → Result SessionStoreError (Unit {0})
validate_limits events deliveries =
    guard
      (not (
        events == 0
        || ltb max_events_per_session events
        || deliveries == 0
        || ltb max_deliveries_per_session deliveries))
      invalid_record

unfoldable pub to_i64 : ℕ → Result SessionStoreError ℕ
to_i64 = to_i64_or invalid_record
