-- ===== src/Service/Restored.antt =====
-- What crates/semantic-engine-service/src/lib.rs restores from the session store.
use semantic_engine.Common.{
  ℕ, true, Option, List, [], ◌∷◌, not, ◌||◌, ltb, ◌=t◌, ◌≤◌, length, trim_front,
  length-trim_front-le, text_of, ◌≡◌, refl, sym, ap, ◌∙◌, subst, arith, All, Pairwise,
}
use semantic_engine.Common.Results.{
  ok, guard, ok_or, map_err, map_err-eq-ok, >>=-eq-ok, >>-eq-ok, guard-eq-ok, ok-injective,
}
use semantic_engine.Common.Machine.{Io}
use semantic_engine.Core.Libraries.{Libraries}
use semantic_engine.SessionStore.Types.{Tables}
use semantic_engine.SessionStore.Loading.{StoredSession, load_sessions}
use semantic_engine.SessionStore.Loaded.{AreLoaded, load_sessions-AreLoaded}
use semantic_engine.MemoryStore.Types.{Table}
use semantic_engine.Service.Types.{
  session_capacity_exceeded, session_store, internal, ServiceConfig, StartSession, SessionEvent,
  SessionDelivery, SessionRecord, SemanticEngineService,
}
use semantic_engine.Service.Config.{from_session_error, validate_service_config}
use semantic_engine.Service.Externals.{Externals}
use semantic_engine.Service.Fingerprints.{session_definition_fingerprint}
use semantic_engine.Service.Records.{validate_session_request}
use semantic_engine.Service.Bounds.{IsBounded, Fits}
use semantic_engine.Service.Restore.{
  Decoders, restored_state, restore_events, restore_deliveries, restore_session, restore_each,
  restore_sessions, new_with_stores,
}
use semantic_engine.Service.RestoredRows.{
  IsEventOf, IsDeliveryOf, restore_events-IsEventOf, restore_deliveries-IsDeliveryOf,
}

module _ (lib : Libraries) (ext : Externals lib.F64) (codec : Decoders lib.F64)
    (config : ServiceConfig) where
  -- The session is that of its rows: the definition, the events and the deliveries are what the rows are
  -- read as, each with the identity of its row, and the newest that the configuration allows are kept.
  pub record IsRestored (stored : StoredSession) (r : SessionRecord lib.F64) : Type 0 where
    pub definition : StartSession lib.F64
    pub events : List (SessionEvent lib.F64)
    pub deliveries : List (SessionDelivery lib.F64)
    pub decoded : codec.decode_definition stored.header.definition_json ≡ ok definition
    pub valid : validate_session_request lib definition ≡ ok tt
    pub same_id : definition.session_id ≡ stored.header.session_id
    pub same_fingerprint :
        session_definition_fingerprint ext definition ≡ stored.header.definition_fingerprint
    pub are_events : Pairwise (IsEventOf codec stored.header.session_id) stored.events events
    pub are_deliveries : Pairwise (IsDeliveryOf codec) stored.deliveries deliveries
    pub is_record : r ≡ record {
      definition_fingerprint = stored.header.definition_fingerprint;
      session_id = stored.header.session_id;
      round = definition.round;
      context_package_sha256 = definition.context_package_sha256;
      state = restored_state stored.header.state;
      created_at_ms = stored.header.created_at_ms;
      ended_at_ms = stored.header.ended_at_ms;
      latest_event_sequence = stored.header.latest_event_sequence;
      events = trim_front config.max_events_per_session events;
      deliveries = trim_front config.max_recorded_validations deliveries;
    }

  header_identity :
      (d : StartSession lib.F64) (stored : StoredSession)
      → not (
          not (d.session_id =t stored.header.session_id)
          || not (session_definition_fingerprint ext d =t stored.header.definition_fingerprint))
        ≡ true
      → (d.session_id ≡ stored.header.session_id)
        × (session_definition_fingerprint ext d ≡ stored.header.definition_fingerprint)
  header_identity d stored e = ground (arith, e)

  restore_session-IsRestored :
      (stored : StoredSession) {r : SessionRecord lib.F64}
      → restore_session lib ext codec config stored ≡ ok r
      → IsRestored stored r
  unfolding restore_session
  restore_session-IsRestored stored {r} e =
      let (d, decoded, e1) =
        >>=-eq-ok (map_err session_store (codec.decode_definition stored.header.definition_json)) _
          e in
      let (valid, e2) = >>-eq-ok (validate_session_request lib d) _ e1 in
      let (same, e3) = >>-eq-ok _ _ e2 in
      let (events, are_events, e4) =
        >>=-eq-ok (restore_events codec d.session_id stored.events) _ e3 in
      let (deliveries, are_deliveries, e5) =
        >>=-eq-ok (restore_deliveries codec stored.deliveries) _ e4 in
      let (same_id, same_fingerprint) = header_identity d stored (guard-eq-ok _ _ same) in
      record {
        definition = d;
        events = events;
        deliveries = deliveries;
        decoded = map_err-eq-ok _ _ decoded;
        valid = valid;
        same_id = same_id;
        same_fingerprint = same_fingerprint;
        are_events =
            subst (λ id. Pairwise (IsEventOf codec id) stored.events events) same_id
              (restore_events-IsEventOf codec d.session_id stored.events are_events);
        are_deliveries = restore_deliveries-IsDeliveryOf codec stored.deliveries are_deliveries;
        is_record =
            sym (ok-injective _ r e5)
            ∙ ap
                (λ id. record {
                  definition_fingerprint = stored.header.definition_fingerprint;
                  session_id = id;
                  round = d.round;
                  context_package_sha256 = d.context_package_sha256;
                  state = restored_state stored.header.state;
                  created_at_ms = stored.header.created_at_ms;
                  ended_at_ms = stored.header.ended_at_ms;
                  latest_event_sequence = stored.header.latest_event_sequence;
                  events = trim_front config.max_events_per_session events;
                  deliveries = trim_front config.max_recorded_validations deliveries;
                })
                same_id;
      }

  restore_each-IsRestored :
      (stored : List StoredSession) {rs : List (SessionRecord lib.F64)}
      → restore_each lib ext codec config stored ≡ ok rs
      → Pairwise IsRestored stored rs
  unfolding restore_each
  restore_each-IsRestored [] {rs} e = subst (Pairwise IsRestored []) (ok-injective [] rs e) tt
  restore_each-IsRestored (first ∷ others) {rs} e =
      let (r, restored, e1) = >>=-eq-ok (restore_session lib ext codec config first) _ e in
      let (rest, are_restored, e2) = >>=-eq-ok (restore_each lib ext codec config others) _ e1 in
      subst (Pairwise IsRestored (first ∷ others)) (ok-injective (r ∷ rest) rs e2)
        (restore_session-IsRestored first restored, restore_each-IsRestored others are_restored)

  IsRestored-Fits :
      (stored : StoredSession) (r : SessionRecord lib.F64) → IsRestored stored r → Fits config r
  IsRestored-Fits stored r h = subst (Fits config) (sym h.is_record) (
    length-trim_front-le config.max_events_per_session h.events,
    length-trim_front-le config.max_recorded_validations h.deliveries,
  )

  -- The restored sessions fit the configuration, and are as many as those that were stored.
  restored-Fits :
      (stored : List StoredSession) (rs : List (SessionRecord lib.F64))
      → Pairwise IsRestored stored rs
      → All (Fits config) rs × (length rs ≡ length stored)
  restored-Fits [] [] h = (tt, refl)
  restored-Fits [] (r ∷ rs) h = absurd h
  restored-Fits (x ∷ xs) [] h = absurd h
  restored-Fits (x ∷ xs) (r ∷ rs) h =
      let (fits, same_length) = restored-Fits xs rs h.1 in
      ((IsRestored-Fits x r h.0, fits), omega (arith, same_length))

  few_sessions :
      (stored : List StoredSession) (sessions : List (SessionRecord lib.F64))
      → not (ltb config.max_sessions (length stored)) ≡ true
      → length sessions ≡ length stored
      → length sessions ≤ config.max_sessions
  few_sessions stored sessions few same = ground (arith, few, same)

  -- A service that starts on tables is within its configuration and holds the sessions of those tables,
  -- the oldest first and up to the limit of the store, one for each row. The definition of a session is
  -- read from its row, is valid and has the identifier and the fingerprint of the row; its events and its
  -- deliveries are what the rows of that session in the other two tables are read as, in the order of
  -- their numbers, each with the identity of its row, of which the newest are kept, as many as the
  -- configuration allows.
  pub new_with_stores-Restores :
      {A : Type 0} (io : Io) (entropy : Option (List ℕ)) (audit : A) (store : Tables)
      (memory : Table) {s : SemanticEngineService lib.F64 A}
      → new_with_stores lib ext codec config io entropy audit store memory ≡ ok s
      → IsBounded s
        × (s.config ≡ config)
        × (s.session_store ≡ store)
        × ((stored : List StoredSession) × (AreLoaded store stored)
            × Pairwise IsRestored stored s.sessions)
  unfolding new_with_stores restore_sessions
  new_with_stores-Restores io entropy audit store memory {s} e =
      let (valid, e1) = >>-eq-ok (validate_service_config config) _ e in
      let (sessions, are_restored, e2) =
        >>=-eq-ok (restore_sessions lib ext codec config io store) _ e1 in
      let (key, has_key, e3) =
        >>=-eq-ok (ok_or entropy (internal (text_of "OS randomness is unavailable"))) _ e2 in
      let (stored, are_stored, e4) =
        >>=-eq-ok (map_err from_session_error (load_sessions io store)) _ are_restored in
      let (few, e5) =
        >>-eq-ok (guard (not (ltb config.max_sessions (length stored))) session_capacity_exceeded) _
          e4 in
      let restored = restore_each-IsRestored stored e5 in
      let (fits, same_length) = restored-Fits stored sessions restored in
      subst
        (λ (x : SemanticEngineService lib.F64 _).
          IsBounded x
          × (x.config ≡ config)
          × (x.session_store ≡ store)
          × ((stored : List StoredSession) × (AreLoaded store stored)
              × Pairwise IsRestored stored x.sessions))
        (ok-injective _ s e3)
        (
          record {
            cached = omega arith;
            recorded = omega arith;
            opened = few_sessions stored sessions (guard-eq-ok _ _ few) same_length;
            sessions = fits;
          },
          refl,
          refl,
          (stored, load_sessions-AreLoaded io store (map_err-eq-ok _ _ are_stored), restored),
        )
