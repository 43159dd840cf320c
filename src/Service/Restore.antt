-- ===== src/Service/Restore.antt =====
-- `restore_sessions` and `new_with_stores` of crates/semantic-engine-service/src/lib.rs.
use semantic_engine.Common.{
  ℕ, Text, Option, none, List, [], ◌∷◌, not, ◌||◌, ltb, ◌==◌, ◌=t◌, length, trim_front, text_of,
}
use semantic_engine.Common.Results.{Result, ok, ◌>>=◌, ◌>>◌, guard, ok_or, map_err}
use semantic_engine.Common.Machine.{Io}
use semantic_engine.Core.Libraries.{Libraries}
use semantic_engine.SessionStore.Types.{StoredSessionState, StoredEvent, StoredDelivery, Tables}
use semantic_engine.SessionStore.Loading.{StoredSession, load_sessions}
use semantic_engine.MemoryStore.Types.{Table}
use semantic_engine.Service.Types.{
  ServiceError, session_capacity_exceeded, session_store, internal, ServiceConfig, ServiceStats,
  StartSession, SessionState, active, ended, SessionValidation, SessionEvent, SessionDelivery,
  SessionRecord, SemanticEngineService,
}
use semantic_engine.Service.Config.{
  session_contract_version, from_session_error, validate_service_config,
}
use semantic_engine.Service.Externals.{Externals}
use semantic_engine.Service.Fingerprints.{session_definition_fingerprint}
use semantic_engine.Service.Records.{validate_session_request}

-- What `serde_json` reads of a text, or the message of its failure
pub record Decoders (F : Type 0) : Type 0 where
  pub decode_definition : Text → Result Text (StartSession F)
  pub decode_event : Text → Result Text (SessionEvent F)
  pub decode_validation : Text → Result Text (SessionValidation F)

unfoldable pub restored_state : StoredSessionState → SessionState
restored_state StoredSessionState.active = active
restored_state StoredSessionState.ended = ended

-- `ServiceStats::default`
abbrev pub no_stats : ServiceStats
no_stats = record {
  deduplicated = 0;
  cache_hits = 0;
  cache_misses = 0;
  cache_evictions = 0;
  cache_expirations = 0;
  cache_entries = 0;
}

module _ {F : Type 0} (codec : Decoders F) where
  unfoldable pub restore_event : Text → StoredEvent → Result ServiceError (SessionEvent F)
  restore_event session_id item = do
    event ← map_err session_store (codec.decode_event item.payload_json)
    guard
        (not (
          not (event.session_id =t session_id)
          || not (event.sequence == item.sequence)
          || not (event.occurred_at_ms == item.occurred_at_ms)
          || not
              (event.contract_version == 1 || event.contract_version == session_contract_version)))
        (session_store (text_of "durable session event identity is invalid"))
    ok (record event { contract_version = session_contract_version })

  unfoldable pub restore_events :
      Text → List StoredEvent → Result ServiceError (List (SessionEvent F))
  unfolding restore_event
  restore_events session_id [] = ok []
  restore_events session_id (item ∷ items) = do
    event ← restore_event session_id item
    events ← restore_events session_id items
    ok (event ∷ events)

  unfoldable pub restore_delivery : StoredDelivery → Result ServiceError (SessionDelivery F)
  restore_delivery item = do
    validation ← map_err session_store (codec.decode_validation item.validation_json)
    guard (validation.message_id =t item.message_id)
        (session_store (text_of "durable delivery identity is invalid"))
    ok (record {
      request_fingerprint = item.request_fingerprint;
      validation = validation;
      resolution_emitted = item.resolution_emitted;
      submission_text = none;
    })

  unfoldable pub restore_deliveries :
      List StoredDelivery → Result ServiceError (List (SessionDelivery F))
  unfolding restore_delivery
  restore_deliveries [] = ok []
  restore_deliveries (item ∷ items) = do
    delivery ← restore_delivery item
    deliveries ← restore_deliveries items
    ok (delivery ∷ deliveries)

module _ (lib : Libraries) (ext : Externals lib.F64) (codec : Decoders lib.F64)
    (config : ServiceConfig) where
  unfoldable pub restore_session : StoredSession → Result ServiceError (SessionRecord lib.F64)
  unfolding validate_session_request session_definition_fingerprint restore_events
      restore_deliveries restored_state
  restore_session stored = do
    definition ← map_err session_store (codec.decode_definition stored.header.definition_json)
    validate_session_request lib definition
    guard
        (not (
          not (definition.session_id =t stored.header.session_id)
          || not (
              session_definition_fingerprint ext definition
              =t stored.header.definition_fingerprint)))
        (session_store (text_of "durable session definition fingerprint is invalid"))
    events ← restore_events codec definition.session_id stored.events
    deliveries ← restore_deliveries codec stored.deliveries
    ok (record {
      definition_fingerprint = stored.header.definition_fingerprint;
      session_id = definition.session_id;
      round = definition.round;
      context_package_sha256 = definition.context_package_sha256;
      state = restored_state stored.header.state;
      created_at_ms = stored.header.created_at_ms;
      ended_at_ms = stored.header.ended_at_ms;
      latest_event_sequence = stored.header.latest_event_sequence;
      events = trim_front config.max_events_per_session events;
      deliveries = trim_front config.max_recorded_validations deliveries;
    })

  unfoldable pub restore_each :
      List StoredSession → Result ServiceError (List (SessionRecord lib.F64))
  unfolding restore_session
  restore_each [] = ok []
  restore_each (stored ∷ others) = do
    session ← restore_session stored
    sessions ← restore_each others
    ok (session ∷ sessions)

  unfoldable pub restore_sessions : Io → Tables → Result ServiceError (List (SessionRecord lib.F64))
  unfolding load_sessions from_session_error restore_each
  restore_sessions io store = do
    stored ← map_err from_session_error (load_sessions io store)
    guard (not (ltb config.max_sessions (length stored))) session_capacity_exceeded
    restore_each stored

  -- The random bytes are those of the provenance key.
  unfoldable pub new_with_stores :
      {A : Type 0}
      → Io
      → Option (List ℕ)
      → A
      → Tables
      → Table
      → Result ServiceError (SemanticEngineService lib.F64 A)
  unfolding validate_service_config restore_sessions
  new_with_stores io entropy audit store memory = do
    validate_service_config config
    sessions ← restore_sessions io store
    key ← ok_or entropy (internal (text_of "OS randomness is unavailable"))
    ok (record {
      audit = audit;
      session_store = store;
      memory = memory;
      memory_provenance_key = key;
      config = config;
      recorded = [];
      cache = [];
      sessions = sessions;
      stats = no_stats;
    })
