-- ===== src/Service/SessionBounds.antt =====
-- The bounds of Service/Bounds through the operations on sessions of
-- crates/semantic-engine-service/src/lib.rs.
use semantic_engine.Common.{
  ℕ, Text, Bool, true, false, Option, none, some, List, [], ◌∷◌, ◌++◌, length, find, leb, ◌=t◌, ◌<◌,
  ◌≡◌, subst, arith, length-trim_front-le, length-append, Option-cases, Bool-cases, inl, inr,
}
use semantic_engine.Common.Results.{Result, ok, err, Result-cases}
use semantic_engine.Core.Types.{Submission, Validation, OperatorResolution}
use semantic_engine.Service.Types.{
  ServiceError, StartSession, SessionSnapshot, SessionEventKind, SessionRecord,
  SemanticEngineService,
}
use semantic_engine.Service.Config.{now_or}
use semantic_engine.Service.Externals.{Externals, Env}
use semantic_engine.Service.Records.{
  is_over, find_record, session_validation, new_session_event, push_session_event,
}
use semantic_engine.Service.Sessions.{
  remove_ended, make_session_room, new_session, started_event, open_session, start_in,
  start_or_repeat,
}
use semantic_engine.Service.Submissions.{
  push_delivery, new_delivery, emit, close, finish, end_active, end_found, record_submission,
  submit_answer, emit_resolution, after_audit,
}
use semantic_engine.Service.Bounds.{IsBounded}
use semantic_engine.Service.Capacity.{
  append-Fits, length-remove_ended-lt, remove_ended-Fits, length-mark_emitted, push-Fits,
  Replaces-IsBounded, update-IsBounded, or_unchanged-IsBounded, Replaces,
}

module _ {F A : Type 0} where
  make_session_room-IsBounded :
      (env : Env) (s : SemanticEngineService F A) {t : SemanticEngineService F A}
      → IsBounded s
      → make_session_room env s ≡ ok t
      → IsBounded t × (length t.sessions < t.config.max_sessions)
  unfolding make_session_room
  make_session_room-IsBounded env s {t} b e =
      elim (Bool-cases (leb s.config.max_sessions (length s.sessions))) [
        | inr free ↦
            let same : s ≡ t = ground (arith, free) in
            subst (λ x. IsBounded x × (length x.sessions < x.config.max_sessions)) same
              (b, ground (arith, free))
        | inl full ↦
            elim (Option-cases (find (λ (r : SessionRecord F). is_over r.state) s.sessions)) [
              | inl gone ↦ absurd (ground (arith, full, gone))
              | inr (old, found) ↦
                  let less = length-remove_ended-lt s.sessions found in
                  let same : Replaces s (remove_ended s.sessions) t = (
                    ground (arith, full, found),
                    ground (arith, full, found),
                    ground (arith, full, found),
                    ground (arith, full, found),
                  ) in
                  (
                    Replaces-IsBounded s t (remove_ended s.sessions) b
                        (omega (arith, less, b.opened))
                        (remove_ended-Fits s.config s.sessions b.sessions) same,
                    rw (same.3, same.0) (omega (arith, less, b.opened)),
                  )
            ]
      ]

  open_session-IsBounded :
      (ext : Externals F) (env : Env) (request : StartSession F) (fingerprint : List ℕ)
      (s : SemanticEngineService F A) (t : SemanticEngineService F A) (snapshot : SessionSnapshot)
      → IsBounded s
      → length s.sessions < s.config.max_sessions
      → open_session ext env request fingerprint s ≡ ok (t, snapshot)
      → IsBounded t
  unfolding open_session now_or new_session
  open_session-IsBounded ext env request fingerprint s t snapshot b room e =
      elim (Option-cases (env.now_ms 0)) [
        | inl unknown ↦ absurd (ground (arith, unknown))
        | inr (now, read) ↦
            let fresh = new_session request fingerprint now in
            let event = started_event fresh in
            let r = push_session_event s.config.max_events_per_session event fresh in
            Replaces-IsBounded s t (s.sessions ++ r ∷ []) b
              (omega (arith, room, length-append s.sessions (r ∷ [])))
              (append-Fits s.config s.sessions r b.sessions
                (push-Fits s.config event fresh (omega arith, omega arith)))
              (
                ground (arith, read),
                ground (arith, read),
                ground (arith, read),
                ground (arith, read),
              )
      ]

  pub start-IsBounded :
      (ext : Externals F) (env : Env) (request : StartSession F) (fingerprint : List ℕ)
      (s : SemanticEngineService F A) (found : Option (SessionRecord F))
      → IsBounded s
      → IsBounded (start_or_repeat ext env request fingerprint s found).0
  unfolding start_or_repeat start_in
  start-IsBounded ext env request fingerprint s (some r) b =
      elim (Bool-cases (r.definition_fingerprint =t fingerprint)) [
        | inl same ↦ rw (same, start_or_repeat) b
        | inr other ↦ rw (other, start_or_repeat) b
      ]
  start-IsBounded ext env request fingerprint s none b =
      elim (Result-cases (make_session_room env s)) [
        | inr (x, full) ↦ rw (full, start_or_repeat, start_in) b
        | inl (room, made) ↦
            let (k, free) = make_session_room-IsBounded env s b made in
            rw (made, start_or_repeat, start_in)
              (or_unchanged-IsBounded room (open_session ext env request fingerprint room) k
                (λ t y opened.
                  open_session-IsBounded ext env request fingerprint room t y k free opened))
      ]

  end_active-IsBounded :
      (ext : Externals F) (env : Env) (r : SessionRecord F) (s t : SemanticEngineService F A)
      (snapshot : SessionSnapshot)
      → IsBounded s
      → end_active ext env r s ≡ ok (t, snapshot)
      → IsBounded t
  unfolding end_active now_or finish
  end_active-IsBounded ext env r s t snapshot b e = elim (Option-cases (env.now_ms 0)) [
    | inl unknown ↦ absurd (ground (arith, unknown))
    | inr (now, read) ↦
        let event = new_session_event r now SessionEventKind.session_ended in
        let f : SessionRecord F → SessionRecord F =
          finish s.config.max_events_per_session event now in
        update-IsBounded s t r.session_id f b
          (λ x fits. push-Fits s.config event (close now x) fits)
          (ground (arith, read), ground (arith, read), ground (arith, read), ground (arith, read))
  ]

  record_submission-IsBounded :
      (ext : Externals F) (env : Env) (id : Text) (submission : Submission) (fingerprint : List ℕ)
      (v : Validation F) (s t : SemanticEngineService F A) (w : Validation F)
      → IsBounded s
      → record_submission ext env id submission fingerprint v s ≡ ok (t, w)
      → IsBounded t
  unfolding record_submission now_or push_delivery push_session_event
  record_submission-IsBounded ext env id submission fingerprint v s t w b e =
      elim (Option-cases (env.now_ms 2)) [
        | inl unknown ↦ absurd (ground (arith, unknown))
        | inr (now, read) ↦ elim (Option-cases (find_record id s.sessions)) [
          | inl gone ↦ absurd (ground (arith, read, gone))
          | inr (r, found) ↦
              let event =
                new_session_event r now
                  (SessionEventKind.validation_recorded (session_validation v)) in
              let delivery = new_delivery fingerprint v submission.text in
              let f : SessionRecord F → SessionRecord F = λ x.
                push_delivery s.config.max_recorded_validations delivery
                  (push_session_event s.config.max_events_per_session event x) in
              update-IsBounded s t id f b
                (λ x fits. (
                  length-trim_front-le s.config.max_events_per_session _,
                  length-trim_front-le s.config.max_recorded_validations _,
                ))
                (
                  ground (arith, read, found),
                  ground (arith, read, found),
                  ground (arith, read, found),
                  ground (arith, read, found),
                )
        ]
      ]

  emit_resolution-IsBounded :
      (ext : Externals F) (env : Env) (id : Text) (resolution : OperatorResolution)
      (s t : SemanticEngineService F A) (w : OperatorResolution)
      → IsBounded s
      → emit_resolution ext env id resolution s ≡ ok (t, w)
      → IsBounded t
  unfolding emit_resolution now_or emit push_session_event
  emit_resolution-IsBounded ext env id resolution s t w b e = elim (Option-cases (env.now_ms 0)) [
    | inl unknown ↦ absurd (ground (arith, unknown))
    | inr (now, read) ↦ elim (Option-cases (find_record id s.sessions)) [
      | inl gone ↦ absurd (ground (arith, read, gone))
      | inr (r, found) ↦
          let event = new_session_event r now (SessionEventKind.resolution_recorded resolution) in
          let f : SessionRecord F → SessionRecord F = λ x.
            emit resolution.message_id
              (push_session_event s.config.max_events_per_session event x) in
          update-IsBounded s t id f b
            (λ x fits. (
              length-trim_front-le s.config.max_events_per_session _,
              omega (arith, fits.1, length-mark_emitted resolution.message_id x.deliveries),
            ))
            (
              ground (arith, read, found),
              ground (arith, read, found),
              ground (arith, read, found),
              ground (arith, read, found),
            )
    ]
  ]

  pub end_found-IsBounded :
      (ext : Externals F) (env : Env) (s : SemanticEngineService F A)
      (found : Result ServiceError (SessionRecord F))
      → IsBounded s
      → IsBounded (end_found ext env s found).0
  unfolding end_found
  end_found-IsBounded ext env s (err e) b = b
  end_found-IsBounded ext env s (ok r) b = elim (Bool-cases (is_over r.state)) [
    | inl over ↦ rw (over, end_found) b
    | inr runs ↦
        rw (runs, end_found)
          (or_unchanged-IsBounded s (end_active ext env r s) b
            (λ t y e. end_active-IsBounded ext env r s t y b e))
  ]

  pub submit_answer-IsBounded :
      (ext : Externals F) (env : Env) (id : Text) (submission : Submission) (fingerprint : List ℕ)
      (answer : SemanticEngineService F A × Result ServiceError (Validation F))
      → IsBounded answer.0
      → IsBounded (submit_answer ext env id submission fingerprint answer).0
  unfolding submit_answer
  submit_answer-IsBounded ext env id submission fingerprint (s, err e) b = b
  submit_answer-IsBounded ext env id submission fingerprint (s, ok v) b =
      or_unchanged-IsBounded s (record_submission ext env id submission fingerprint v s) b
        (λ t y e. record_submission-IsBounded ext env id submission fingerprint v s t y b e)

  pub after_audit-IsBounded :
      (ext : Externals F) (env : Env) (id : Text) (resolution : OperatorResolution) (emitted : Bool)
      (s : SemanticEngineService F A) (answer : Result Text (Unit {0}))
      → IsBounded s
      → IsBounded (after_audit ext env id resolution emitted s answer).0
  unfolding after_audit
  after_audit-IsBounded ext env id resolution emitted s (err message) b = b
  after_audit-IsBounded ext env id resolution true s (ok done) b = b
  after_audit-IsBounded ext env id resolution false s (ok done) b =
      or_unchanged-IsBounded s (emit_resolution ext env id resolution s) b
        (λ t y e. emit_resolution-IsBounded ext env id resolution s t y b e)
