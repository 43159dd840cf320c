-- ===== src/Service/Records.antt =====
-- The records of sessions in crates/semantic-engine-service/src/lib.rs: their checks, their events,
-- and what the store keeps of them.
use semantic_engine.Common.{
  ℕ, Text, Bool, true, false, Option, none, some, List, [], ◌∷◌, ◌++◌, map, not, ◌||◌, ◌&&◌, leb,
  ◌==◌, ◌=t◌, if◌then◌else◌, length, find, all, is_empty, trim_front, text_of, byte_len, max,
  is_ascii_alphanumeric, is_ascii_hexdigit,
}
use semantic_engine.Common.Results.{Result, ok, ◌>>=◌, ◌>>◌, guard, map_err}
use semantic_engine.Common.Machine.{saturating_add}
use semantic_engine.Core.Libraries.{Libraries}
use semantic_engine.Core.Types.{
  Validation, Evidence, ValidationIssue, invalid_policy, invalid_round, invalid_submission,
  Submission,
}
use semantic_engine.Core.Limits.{max_identifier_chars}
use semantic_engine.Core.Validate.{validate}
use semantic_engine.SessionStore.Types.{
  StoredSessionHeader, StoredSessionState, StoredEvent, StoredDelivery,
}
use semantic_engine.Service.Types.{
  ServiceError, invalid_session, internal, StartSession, SessionState, active, ended,
  SessionSnapshot, ResumableSession, SessionValidation, SessionEventKind, SessionEvent,
  SessionRecord, SessionDelivery,
}
use semantic_engine.Service.Config.{session_contract_version}
use semantic_engine.Service.Externals.{Externals}

-- An ASCII byte stands for itself in UTF-8 and no other character has ASCII bytes, so `bytes().all`
-- of an ASCII test is the test of every character.
unfoldable pub valid_session_identifier : Text → Bool
valid_session_identifier value =
    not (is_empty value)
    && leb (length value) max_identifier_chars
    && all (λ c. is_ascii_alphanumeric c || c == b'-' || c == b'_' || c == b'.' || c == b':') value

unfoldable pub invalid_digest : Option Text → Bool
invalid_digest none = false
invalid_digest (some value) = not (byte_len value == 64) || not (all is_ascii_hexdigit value)

-- The `matches!` on the issue of the preflight
unfoldable pub is_refused : Option ValidationIssue → Bool
is_refused (some invalid_round) = true
is_refused (some invalid_policy) = true
is_refused (some invalid_submission) = false
is_refused none = false

abbrev pub preflight : Submission
preflight = record {
  message_id = text_of "session-preflight";
  participant_id = text_of "session-preflight";
  source_sequence = 0;
  text = text_of "session preflight";
}

unfoldable pub validate_session_request :
    (lib : Libraries) → StartSession lib.F64 → Result ServiceError (Unit {0})
unfolding valid_session_identifier invalid_digest is_refused
validate_session_request lib request = do
  guard
      (not (
        not (valid_session_identifier request.session_id)
        || invalid_digest request.context_package_sha256))
      invalid_session
  guard (not (is_refused (validate lib request.round preflight).issue)) invalid_session

abbrev pub is_over : SessionState → Bool
is_over active = false
is_over ended = true

unfoldable pub stored_state : SessionState → StoredSessionState
stored_state active = StoredSessionState.active
stored_state ended = StoredSessionState.ended

module _ {F : Type 0} where
  unfoldable pub find_record : Text → List (SessionRecord F) → Option (SessionRecord F)
  find_record session_id = find (λ (s : SessionRecord F). s.session_id =t session_id)

  -- `iter_mut().find`: the first record of the session is changed.
  unfoldable pub update_record :
      Text → (SessionRecord F → SessionRecord F) → List (SessionRecord F) → List (SessionRecord F)
  update_record session_id f [] = []
  update_record session_id f (s ∷ rest) =
      let others = update_record session_id f rest in
      if s.session_id =t session_id then f s ∷ rest else s ∷ others

  unfoldable pub find_delivery : Text → List (SessionDelivery F) → Option (SessionDelivery F)
  find_delivery message_id = find (λ (d : SessionDelivery F). d.validation.message_id =t message_id)

  unfoldable pub session_snapshot : SessionRecord F → SessionSnapshot
  session_snapshot session = record {
    contract_version = session_contract_version;
    session_id = session.session_id;
    round_id = session.round.id;
    context_package_sha256 = session.context_package_sha256;
    state = session.state;
    created_at_ms = session.created_at_ms;
    ended_at_ms = session.ended_at_ms;
    latest_event_sequence = session.latest_event_sequence;
  }

  -- `max().map_or(0, |sequence| sequence.saturating_add(1))` of the source's sequences
  unfoldable pub next_sequence : List (SessionDelivery F) → ℕ
  next_sequence [] = 0
  next_sequence (d ∷ ds) = max (saturating_add d.validation.source_sequence 1) (next_sequence ds)

  unfoldable pub resume : SessionRecord F → ResumableSession F
  unfolding session_snapshot next_sequence
  resume session = record {
    snapshot = session_snapshot session;
    round = session.round;
    next_source_sequence = next_sequence session.deliveries;
  }

  unfoldable pub session_validation : Validation F → SessionValidation F
  session_validation validation = record {
    round_id = validation.round_id;
    message_id = validation.message_id;
    participant_id = validation.participant_id;
    source_sequence = validation.source_sequence;
    decision = validation.decision;
    target_id = validation.target_id;
    score = validation.score;
    evidence_kinds = map (λ (e : Evidence). e.kind) validation.evidence;
    issue = validation.issue;
  }

  unfoldable pub validation_from_session : SessionValidation F → Validation F
  validation_from_session validation = record {
    round_id = validation.round_id;
    message_id = validation.message_id;
    participant_id = validation.participant_id;
    source_sequence = validation.source_sequence;
    decision = validation.decision;
    target_id = validation.target_id;
    score = validation.score;
    evidence = map (λ k. record { kind = k; matched_expression = [] }) validation.evidence_kinds;
    issue = validation.issue;
  }

  unfoldable pub new_session_event : SessionRecord F → ℕ → SessionEventKind F → SessionEvent F
  new_session_event session occurred_at_ms kind = record {
    contract_version = session_contract_version;
    session_id = session.session_id;
    sequence = saturating_add session.latest_event_sequence 1;
    occurred_at_ms = occurred_at_ms;
    kind = kind;
  }

  unfoldable pub push_session_event : ℕ → SessionEvent F → SessionRecord F → SessionRecord F
  push_session_event max_events event session = record session {
    latest_event_sequence = event.sequence;
    events = trim_front max_events (session.events ++ event ∷ []);
  }

  unfoldable pub stored_session_header :
      Externals F → SessionRecord F → Result ServiceError StoredSessionHeader
  unfolding stored_state
  stored_session_header ext session = do
    definition_json ← map_err internal (
        ext.encode_definition (record {
          session_id = session.session_id;
          round = session.round;
          context_package_sha256 = session.context_package_sha256;
        }))
    ok (record {
      session_id = session.session_id;
      definition_fingerprint = session.definition_fingerprint;
      definition_json = definition_json;
      state = stored_state session.state;
      created_at_ms = session.created_at_ms;
      ended_at_ms = session.ended_at_ms;
      latest_event_sequence = session.latest_event_sequence;
    })

  unfoldable pub stored_event : Externals F → SessionEvent F → Result ServiceError StoredEvent
  stored_event ext event = do
    payload_json ← map_err internal (ext.encode_event event)
    ok (record {
      sequence = event.sequence;
      occurred_at_ms = event.occurred_at_ms;
      payload_json = payload_json;
    })

  unfoldable pub stored_delivery :
      Externals F → SessionDelivery F → ℕ → Result ServiceError StoredDelivery
  stored_delivery ext delivery sequence = do
    validation_json ← map_err internal (ext.encode_validation delivery.validation)
    ok (record {
      message_id = delivery.validation.message_id;
      sequence = sequence;
      request_fingerprint = delivery.request_fingerprint;
      validation_json = validation_json;
      resolution_emitted = delivery.resolution_emitted;
    })
