-- ===== src/SessionStore/Types.antt =====
-- The data of crates/semantic-engine-session-store/src/lib.rs.
use semantic_engine.Common.{ℕ, Text, List, Option, Bool}

pub data StoredSessionState : Type 0 where
  active ended : StoredSessionState

pub record StoredSessionHeader : Type 0 where
  pub session_id : Text
  pub definition_fingerprint : List ℕ
  pub definition_json : Text
  pub state : StoredSessionState
  pub created_at_ms : ℕ
  pub ended_at_ms : Option ℕ
  pub latest_event_sequence : ℕ

pub record StoredEvent : Type 0 where
  pub sequence : ℕ
  pub occurred_at_ms : ℕ
  pub payload_json : Text

pub record StoredDelivery : Type 0 where
  pub message_id : Text
  pub sequence : ℕ
  pub request_fingerprint : List ℕ
  pub validation_json : Text
  pub resolution_emitted : Bool

pub data SessionStoreError : Type 0 where
  database : Text → SessionStoreError
  invalid_record conflict missing ended_session : SessionStoreError

-- The tables `session_records`, `session_events` and `session_deliveries`.
pub record Tables : Type 0 where
  pub sessions : List StoredSessionHeader
  pub events : List (Text × StoredEvent)
  pub deliveries : List (Text × StoredDelivery)
