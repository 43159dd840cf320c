-- ===== src/Service/Types.antt =====
-- The data of crates/semantic-engine-service/src/lib.rs. `F` is the type of scores, `A` that of the
-- audit store's state; durations are in nanoseconds, and an `Instant` is its distance from a fixed
-- origin.
use semantic_engine.Common.{ℕ, Text, List, Option, Bool}
use semantic_engine.Core.Types.{
  Round, Decision, EvidenceKind, ValidationIssue, Validation, OperatorResolution,
}
use semantic_engine.MemoryStore.Types.{Table}
use semantic_engine.SessionStore.Types.{Tables}

pub record ServiceConfig : Type 0 where
  pub max_recorded_validations : ℕ
  pub cache_capacity : ℕ
  pub cache_ttl : ℕ
  pub max_sessions : ℕ
  pub max_events_per_session : ℕ
  pub memory_capacity : ℕ
  pub memory_ttl : ℕ

-- `cache_entries` is filled in only by `stats`, from the length of the cache.
pub record ServiceStats : Type 0 where
  pub deduplicated : ℕ
  pub cache_hits : ℕ
  pub cache_misses : ℕ
  pub cache_evictions : ℕ
  pub cache_expirations : ℕ
  pub cache_entries : ℕ

pub data ServiceError : Type 0 where
  invalid_config identity_conflict validation_missing session_conflict : ServiceError
  session_missing session_ended session_capacity_exceeded invalid_session : ServiceError
  resolution audit session_store memory_rejected memory_store internal : Text → ServiceError

pub data SessionState : Type 0 where
  active ended : SessionState

pub record StartSession (F : Type 0) : Type 0 where
  pub session_id : Text
  pub round : Round F
  pub context_package_sha256 : Option Text

pub record SessionSnapshot : Type 0 where
  pub contract_version : ℕ
  pub session_id : Text
  pub round_id : Text
  pub context_package_sha256 : Option Text
  pub state : SessionState
  pub created_at_ms : ℕ
  pub ended_at_ms : Option ℕ
  pub latest_event_sequence : ℕ

pub record ResumableSession (F : Type 0) : Type 0 where
  pub snapshot : SessionSnapshot
  pub round : Round F
  pub next_source_sequence : ℕ

pub record SessionValidation (F : Type 0) : Type 0 where
  pub round_id : Text
  pub message_id : Text
  pub participant_id : Text
  pub source_sequence : ℕ
  pub decision : Decision
  pub target_id : Option Text
  pub score : F
  pub evidence_kinds : List EvidenceKind
  pub issue : Option ValidationIssue

pub data SessionEventKind (F : Type 0) : Type 0 where
  session_started : (round_id : Text) (context_package_sha256 : Option Text) → SessionEventKind F
  validation_recorded : SessionValidation F → SessionEventKind F
  resolution_recorded : OperatorResolution → SessionEventKind F
  session_ended : SessionEventKind F

pub record SessionEvent (F : Type 0) : Type 0 where
  pub contract_version : ℕ
  pub session_id : Text
  pub sequence : ℕ
  pub occurred_at_ms : ℕ
  pub kind : SessionEventKind F

pub record SessionEventsPage (F : Type 0) : Type 0 where
  pub contract_version : ℕ
  pub session_id : Text
  pub earliest_available_sequence : ℕ
  pub latest_sequence : ℕ
  pub truncated : Bool
  pub events : List (SessionEvent F)

pub record RecordedValidation (F : Type 0) : Type 0 where
  pub request_fingerprint : List ℕ
  pub round : Round F
  pub validation : Validation F

pub record CacheEntry (F : Type 0) : Type 0 where
  pub key : List ℕ
  pub inserted_at : ℕ
  pub validation : Validation F

pub record SessionDelivery (F : Type 0) : Type 0 where
  pub request_fingerprint : List ℕ
  pub validation : SessionValidation F
  pub resolution_emitted : Bool
  pub submission_text : Option Text

pub record SessionRecord (F : Type 0) : Type 0 where
  pub definition_fingerprint : List ℕ
  pub session_id : Text
  pub round : Round F
  pub context_package_sha256 : Option Text
  pub state : SessionState
  pub created_at_ms : ℕ
  pub ended_at_ms : Option ℕ
  pub latest_event_sequence : ℕ
  pub events : List (SessionEvent F)
  pub deliveries : List (SessionDelivery F)

pub record SemanticEngineService (F A : Type 0) : Type 0 where
  pub audit : A
  pub session_store : Tables
  pub memory : Table
  pub memory_provenance_key : List ℕ
  pub config : ServiceConfig
  pub recorded : List (RecordedValidation F)
  pub cache : List (CacheEntry F)
  pub sessions : List (SessionRecord F)
  pub stats : ServiceStats
