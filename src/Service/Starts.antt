-- ===== src/Service/Starts.antt =====
-- `start_session` of crates/semantic-engine-service/src/lib.rs said again.
use semantic_engine.Common.{
  ℕ, Text, Option, none, some, List, [], ◌∷◌, ◌++◌, ◌≡◌, refl, sym, ◌∙◌, subst, arith, Option-cases,
  inl, inr,
}
use semantic_engine.Common.Results.{ok, Result-cases}
use semantic_engine.Core.Libraries.{Libraries}
use semantic_engine.Service.Types.{
  StartSession, SessionSnapshot, SessionRecord, SemanticEngineService,
}
use semantic_engine.Service.Config.{now_or}
use semantic_engine.Service.Externals.{Externals, Env}
use semantic_engine.Service.Fingerprints.{session_definition_fingerprint}
use semantic_engine.Service.Records.{
  validate_session_request, find_record, session_snapshot, push_session_event,
}
use semantic_engine.Service.Sessions.{
  remove_ended, make_session_room, new_session, started_event, open_session, or_unchanged, start_in,
  start_or_repeat, start_session,
}

module _ {F : Type 0} where
  find_record-append :
      (id : Text) (rs : List (SessionRecord F)) (r : SessionRecord F)
      → find_record id rs ≡ none
      → r.session_id ≡ id
      → find_record id (rs ++ r ∷ []) ≡ some r
  unfolding find_record
  find_record-append id [] r gone same = ground arith
  find_record-append id (x ∷ rs) r gone same = ground (arith, find_record-append id rs r)

  find_record-remove_ended :
      (id : Text) (rs : List (SessionRecord F))
      → find_record id rs ≡ none
      → find_record id (remove_ended rs) ≡ none
  unfolding find_record remove_ended
  find_record-remove_ended id [] gone = refl
  find_record-remove_ended id (x ∷ rs) gone = ground (arith, find_record-remove_ended id rs)

module _ {F A : Type 0} (ext : Externals F) where
  -- The session of the request is there with its fingerprint.
  abbrev Opened : Text → List ℕ → SemanticEngineService F A → SessionSnapshot → Type 0
  Opened id fingerprint t snapshot =
      (r : SessionRecord F) × (find_record id t.sessions ≡ some r)
      × (r.definition_fingerprint ≡ fingerprint)
      × (session_snapshot r ≡ snapshot)

  open_session-eq-ok :
      (env : Env) (request : StartSession F) (fingerprint : List ℕ) (s : SemanticEngineService F A)
      {t : SemanticEngineService F A} {snapshot : SessionSnapshot}
      → open_session ext env request fingerprint s ≡ ok (t, snapshot)
      → (now : ℕ) × (let fresh = new_session request fingerprint now in
          let r = push_session_event s.config.max_events_per_session (started_event fresh) fresh in
          (t.sessions ≡ s.sessions ++ r ∷ []) × (snapshot ≡ session_snapshot r))
  unfolding open_session now_or
  open_session-eq-ok env request fingerprint s e = elim (Option-cases (env.now_ms 0)) [
    | inl unknown ↦ absurd (ground (arith, unknown))
    | inr (now, read) ↦ (now, (ground (arith, read), ground (arith, read)))
  ]

  open_session-Opened :
      (env : Env) (request : StartSession F) (fingerprint : List ℕ) (s : SemanticEngineService F A)
      {t : SemanticEngineService F A} {snapshot : SessionSnapshot}
      → find_record request.session_id s.sessions ≡ none
      → open_session ext env request fingerprint s ≡ ok (t, snapshot)
      → Opened request.session_id fingerprint t snapshot
  unfolding push_session_event new_session
  open_session-Opened env request fingerprint s gone e =
      let (now, (sessions, shown)) = open_session-eq-ok env request fingerprint s e in
      let fresh = new_session request fingerprint now in
      let r = push_session_event s.config.max_events_per_session (started_event fresh) fresh in
      (
        r,
        subst (λ rs. find_record request.session_id rs ≡ some r) (sym sessions)
            (find_record-append request.session_id s.sessions r gone refl),
        refl,
        sym shown,
      )

  make_session_room-gone :
      (env : Env) (id : Text) (s : SemanticEngineService F A) {t : SemanticEngineService F A}
      → find_record id s.sessions ≡ none
      → make_session_room env s ≡ ok t
      → find_record id t.sessions ≡ none
  unfolding make_session_room
  make_session_room-gone env id s gone e =
      ground (arith, gone, find_record-remove_ended id s.sessions)

module _ (lib : Libraries) {A : Type 0} (ext : Externals lib.F64) where
  open lib use {F64}

  start_or_repeat-Opened :
      (env : Env) (request : StartSession F64) (s : SemanticEngineService F64 A)
      (found : Option (SessionRecord F64)) {snapshot : SessionSnapshot}
      → let fingerprint = session_definition_fingerprint ext request in
        find_record request.session_id s.sessions ≡ found
        → (start_or_repeat ext env request fingerprint s found).1 ≡ ok snapshot
        → Opened ext request.session_id fingerprint
            (start_or_repeat ext env request fingerprint s found).0
            snapshot
  unfolding start_or_repeat start_in or_unchanged
  start_or_repeat-Opened env request s (some r) found e =
      (r, ground (arith, found), ground arith, ground arith)
  start_or_repeat-Opened env request s none {snapshot} gone e =
      let fingerprint = session_definition_fingerprint ext request in
      elim (Result-cases (make_session_room env s)) [
        | inr (x, full) ↦ absurd (ground (arith, full))
        | inl (room, made) ↦ elim (Result-cases (open_session ext env request fingerprint room)) [
          | inr (x, failed) ↦ absurd (ground (arith, made, failed))
          | inl ((t, snap), opened) ↦
              let there =
                open_session-Opened ext env request fingerprint room
                  (make_session_room-gone ext env request.session_id s gone made) opened in
              let q : start_or_repeat ext env request fingerprint s none ≡ (t, ok snap) =
                ground (arith, made, opened) in
              let told : snap ≡ snapshot = ground (arith, q, e) in
              subst (λ x. Opened ext request.session_id fingerprint x.0 snapshot) (sym q)
                (subst (Opened ext request.session_id fingerprint t) told there)
        ]
      ]

  start_session-eq-ok :
      (env : Env) (request : StartSession F64) (s : SemanticEngineService F64 A)
      {snapshot : SessionSnapshot}
      → (start_session lib ext env request s).1 ≡ ok snapshot
      → (validate_session_request lib request ≡ ok tt)
        × (start_session lib ext env request s
            ≡ start_or_repeat ext env request
                (session_definition_fingerprint ext request)
                s
                (find_record request.session_id s.sessions))
  unfolding start_session
  start_session-eq-ok env request s e = elim (Result-cases (validate_session_request lib request)) [
    | inl (tt, valid) ↦ (valid, rw (valid, start_session) refl)
    | inr (x, wrong) ↦ absurd (ground (arith, wrong))
  ]

  repeat-Opened :
      (env : Env) (request : StartSession F64) (t : SemanticEngineService F64 A)
      {snapshot : SessionSnapshot}
      → validate_session_request lib request ≡ ok tt
      → Opened ext request.session_id (session_definition_fingerprint ext request) t snapshot
      → start_session lib ext env request t ≡ (t, ok snapshot)
  unfolding start_session start_or_repeat
  repeat-Opened env request t valid (r, found, same, shown) =
      rw (valid, start_session) (rw found (ground (arith, same, shown)))

  -- A start can be repeated: as long as the session that a start answered with stands in the service as
  -- that start left it, whatever else the service then holds and whatever the time, the same request
  -- gives the same snapshot and changes nothing.
  pub start_session-again :
      (env later : Env) (request : StartSession F64) (s : SemanticEngineService F64 A)
      (u : SemanticEngineService F64 A) {snapshot : SessionSnapshot}
      → (start_session lib ext env request s).1 ≡ ok snapshot
      → find_record request.session_id u.sessions
        ≡ find_record request.session_id (start_session lib ext env request s).0.sessions
      → start_session lib ext later request u ≡ (u, ok snapshot)
  start_session-again env later request s u {snapshot} e stands =
      let (valid, q) = start_session-eq-ok env request s e in
      let start =
        start_or_repeat-Opened env request s (find_record request.session_id s.sessions) refl
          (subst (λ x. x.1 ≡ ok snapshot) q e) in
      let (r, found, same, shown) : Opened ext request.session_id
          (session_definition_fingerprint ext request) (start_session lib ext env request s).0
          snapshot =
        subst
          (λ x.
            Opened ext request.session_id (session_definition_fingerprint ext request) x.0 snapshot)
          (sym q) start in
      repeat-Opened later request u valid (r, stands ∙ found, same, shown)
