-- ===== src/Service/Sessions.antt =====
-- The operations on sessions in crates/semantic-engine-service/src/lib.rs. An operation gives the
-- service after it, also where it fails, and its answer.
use semantic_engine.Common.{
  ℕ, Text, Option, none, some, List, [], ◌∷◌, ◌++◌, not, ◌=t◌, ltb, leb, if◌then◌else◌, find, take,
  retain, length, last, text_of,
}
use semantic_engine.Common.Results.{Result, ok, err, ◌>>=◌, ◌>>◌, guard, ok_or, map_err}
use semantic_engine.Common.Machine.{saturating_add}
use semantic_engine.Core.Libraries.{Libraries}
use semantic_engine.SessionStore.Operations
use semantic_engine.Service.Types.{
  ServiceError, internal, session_conflict, session_missing, session_ended,
  session_capacity_exceeded, invalid_session, StartSession, active, SessionSnapshot,
  ResumableSession, SessionEventKind, SessionEvent, SessionEventsPage, SessionRecord,
  SemanticEngineService,
}
use semantic_engine.Service.Config.{
  max_event_page, session_contract_version, from_session_error, now_or,
}
use semantic_engine.Service.Externals.{Externals, Env}
use semantic_engine.Service.Fingerprints.{session_definition_fingerprint}
use semantic_engine.Service.Records.{
  valid_session_identifier, validate_session_request, is_over, find_record, session_snapshot,
  resume, new_session_event, push_session_event, stored_session_header, stored_event,
}

module _ {F : Type 0} where
  -- `iter().rev().find(..)`: the last of them that is active
  unfoldable pub last_active : List (SessionRecord F) → Option (SessionRecord F)
  last_active [] = none
  last_active (r ∷ rs) = elim (last_active rs) [
    | some later ↦ some later
    | none ↦ if is_over r.state then none else some r
  ]

  -- `front().map_or(..)`
  unfoldable pub earliest : SessionRecord F → List (SessionEvent F) → ℕ
  earliest found [] = saturating_add found.latest_event_sequence 1
  earliest found (event ∷ _) = event.sequence

  unfoldable pub page : SessionRecord F → ℕ → ℕ → SessionEventsPage F
  unfolding earliest
  page found after_sequence limit = record {
    contract_version = session_contract_version;
    session_id = found.session_id;
    earliest_available_sequence = earliest found found.events;
    latest_sequence = found.latest_event_sequence;
    truncated = ltb (saturating_add after_sequence 1) (earliest found found.events);
    events =
        take limit (retain (λ (e : SessionEvent F). ltb after_sequence e.sequence) found.events);
  }

  -- `sessions.remove(position)` of the first ended session
  unfoldable pub remove_ended : List (SessionRecord F) → List (SessionRecord F)
  remove_ended [] = []
  remove_ended (r ∷ rs) = let rest = remove_ended rs in if is_over r.state then rs else r ∷ rest

  -- The new session of `start_session`, which its first event opens, and the event
  unfoldable pub new_session : StartSession F → List ℕ → ℕ → SessionRecord F
  new_session request definition_fingerprint occurred_at_ms = record {
    definition_fingerprint = definition_fingerprint;
    session_id = request.session_id;
    round = request.round;
    context_package_sha256 = request.context_package_sha256;
    state = active;
    created_at_ms = occurred_at_ms;
    ended_at_ms = none;
    latest_event_sequence = 0;
    events = [];
    deliveries = [];
  }

  unfoldable pub started_event : SessionRecord F → SessionEvent F
  unfolding new_session_event
  started_event found =
      new_session_event found found.created_at_ms
        (SessionEventKind.session_started found.round.id found.context_package_sha256)

module _ {F A : Type 0} where
  -- The lookup that every operation on a session starts with
  unfoldable pub known : Text → SemanticEngineService F A → Result ServiceError (SessionRecord F)
  unfolding valid_session_identifier find_record
  known session_id s = do
    guard (valid_session_identifier session_id) invalid_session
    ok_or (find_record session_id s.sessions) session_missing

  unfoldable pub live : Text → SemanticEngineService F A → Result ServiceError (SessionRecord F)
  unfolding known
  live session_id s = do
    found ← known session_id s
    guard (not (is_over found.state)) session_ended
    ok found

  unfoldable pub session : Text → SemanticEngineService F A → Result ServiceError SessionSnapshot
  unfolding known session_snapshot
  session session_id s = do found ← known session_id s; ok (session_snapshot found)

  unfoldable pub resumable_session :
      Text → SemanticEngineService F A → Result ServiceError (ResumableSession F)
  unfolding live resume
  resumable_session session_id s = do found ← live session_id s; ok (resume found)

  unfoldable pub latest_active_session : SemanticEngineService F A → Option (ResumableSession F)
  unfolding last_active resume
  latest_active_session s = elim (last_active s.sessions) [
    | none ↦ none
    | some found ↦ some (resume found)
  ]

  unfoldable pub session_events :
      Text → ℕ → ℕ → SemanticEngineService F A → Result ServiceError (SessionEventsPage F)
  unfolding known page
  session_events session_id after_sequence limit s = do
    guard (not (ltb max_event_page limit)) invalid_session
    found ← known session_id s
    ok (page found after_sequence limit)

  -- The capacity step of `start_session`
  unfoldable pub make_session_room :
      Env → SemanticEngineService F A → Result ServiceError (SemanticEngineService F A)
  unfolding from_session_error remove_ended
  make_session_room env s =
      if leb s.config.max_sessions (length s.sessions)
      then (do
        old ←
            ok_or (find (λ (r : SessionRecord F). is_over r.state) s.sessions)
              session_capacity_exceeded
        tables ←
            map_err from_session_error
              (Operations.delete_ended (env.session_io 0) s.session_store old.session_id)
        ok (record s { session_store = tables; sessions = remove_ended s.sessions }))
      else ok s

  unfoldable pub open_session :
      Externals F
      → Env
      → StartSession F
      → List ℕ
      → SemanticEngineService F A
      → Result ServiceError (SemanticEngineService F A × SessionSnapshot)
  unfolding now_or new_session started_event push_session_event stored_session_header stored_event
      from_session_error session_snapshot
  open_session ext env request fingerprint s = do
    now ← now_or (env.now_ms 0)
    let fresh = new_session request fingerprint now
    let opened = push_session_event s.config.max_events_per_session (started_event fresh) fresh
    header ← stored_session_header ext opened
    event ← ok_or (last opened.events) (internal (text_of "started session event is missing"))
    stored ← stored_event ext event
    tables ←
        map_err from_session_error
          (Operations.create_session (env.session_io 1) s.session_store header stored)
    ok (
      record s { session_store = tables; sessions = s.sessions ++ opened ∷ [] },
      session_snapshot opened,
    )

  -- An operation that fails leaves the service as it was.
  unfoldable pub or_unchanged {ℓ} :
      {B : Type ℓ}
      → SemanticEngineService F A
      → Result ServiceError (SemanticEngineService F A × B)
      → SemanticEngineService F A × Result ServiceError B
  or_unchanged s (err e) = (s, err e)
  or_unchanged s (ok (t, b)) = (t, ok b)

  -- `start_session` with the service that `make_session_room` gave
  unfoldable pub start_in :
      Externals F
      → Env
      → StartSession F
      → List ℕ
      → SemanticEngineService F A
      → Result ServiceError (SemanticEngineService F A)
      → SemanticEngineService F A × Result ServiceError SessionSnapshot
  unfolding open_session or_unchanged
  start_in ext env request fingerprint s (err e) = (s, err e)
  start_in ext env request fingerprint s (ok t) =
      or_unchanged t (open_session ext env request fingerprint t)

  unfoldable pub start_or_repeat :
      Externals F
      → Env
      → StartSession F
      → List ℕ
      → SemanticEngineService F A
      → Option (SessionRecord F)
      → SemanticEngineService F A × Result ServiceError SessionSnapshot
  unfolding start_in make_session_room session_snapshot
  start_or_repeat ext env request fingerprint s (some existing) =
      if existing.definition_fingerprint =t fingerprint
      then (s, ok (session_snapshot existing))
      else (s, err session_conflict)
  start_or_repeat ext env request fingerprint s none =
      start_in ext env request fingerprint s (make_session_room env s)

module _ (lib : Libraries) {A : Type 0} (ext : Externals lib.F64) where
  open lib use {F64}

  unfoldable pub start_session :
      Env
      → StartSession F64
      → SemanticEngineService F64 A
      → SemanticEngineService F64 A × Result ServiceError SessionSnapshot
  unfolding validate_session_request find_record start_or_repeat
  start_session env request s = elim (validate_session_request lib request) [
    | err e ↦ (s, err e)
    | ok valid ↦
        start_or_repeat ext env request (session_definition_fingerprint ext request) s
          (find_record request.session_id s.sessions)
  ]
