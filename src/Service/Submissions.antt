-- ===== src/Service/Submissions.antt =====
-- `submit`, `resolve_session` and `end_session` of crates/semantic-engine-service/src/lib.rs.
use semantic_engine.Common.{
  ℕ, Text, Bool, true, false, Option, none, some, List, [], ◌∷◌, ◌++◌, ◌=t◌, if◌then◌else◌,
  trim_front,
}
use semantic_engine.Common.Results.{Result, ok, err, ◌>>=◌, ◌>>◌, guard, ok_or, map_err}
use semantic_engine.Common.Machine.{saturating_add}
use semantic_engine.Core.Libraries.{Libraries}
use semantic_engine.Core.Types.{
  Submission, Validation, OperatorResolutionRequest, OperatorResolution,
}
use semantic_engine.Core.Resolve.{resolve_validation}
use semantic_engine.Core.Validate
use semantic_engine.SessionStore.Operations
use semantic_engine.Service.Types.{
  ServiceError, identity_conflict, validation_missing, session_conflict, session_missing, audit,
  ended, SessionSnapshot, SessionEventKind, SessionEvent, SessionDelivery, SessionRecord,
  SemanticEngineService,
}
use semantic_engine.Service.Config.{from_session_error, resolution_error, now_or}
use semantic_engine.Service.Externals.{Externals, Audit, Env}
use semantic_engine.Service.Fingerprints.{request_fingerprint}
use semantic_engine.Service.Records.{
  is_over, find_record, update_record, find_delivery, session_snapshot, session_validation,
  validation_from_session, new_session_event, push_session_event, stored_event, stored_delivery,
}
use semantic_engine.Service.Sessions.{known, live, or_unchanged}
use semantic_engine.Service.Validate.{validate}

module _ {F : Type 0} where
  -- The delivery joins those of the record, oldest first.
  unfoldable pub push_delivery : ℕ → SessionDelivery F → SessionRecord F → SessionRecord F
  push_delivery max_deliveries delivery found = record found {
    deliveries = trim_front max_deliveries (found.deliveries ++ delivery ∷ []);
  }

  unfoldable pub new_delivery : List ℕ → Validation F → Text → SessionDelivery F
  unfolding session_validation
  new_delivery fingerprint validation text = record {
    request_fingerprint = fingerprint;
    validation = session_validation validation;
    resolution_emitted = false;
    submission_text = some text;
  }

  -- `iter_mut().find(..)` and the assignment of `resolution_emitted`; the delivery is there, since
  -- `resolve_session` has found it before.
  unfoldable pub mark_emitted : Text → List (SessionDelivery F) → List (SessionDelivery F)
  mark_emitted message_id [] = []
  mark_emitted message_id (d ∷ ds) =
      let rest = mark_emitted message_id ds in
      if d.validation.message_id =t message_id
      then record d { resolution_emitted = true } ∷ ds
      else d ∷ rest

  unfoldable pub emit : Text → SessionRecord F → SessionRecord F
  unfolding mark_emitted
  emit message_id found = record found { deliveries = mark_emitted message_id found.deliveries }

  -- The assignments of `end_session`
  unfoldable pub close : ℕ → SessionRecord F → SessionRecord F
  close occurred_at_ms found = record found { state = ended; ended_at_ms = some occurred_at_ms }

  unfoldable pub finish : ℕ → SessionEvent F → ℕ → SessionRecord F → SessionRecord F
  unfolding push_session_event close
  finish max_events event now found = push_session_event max_events event (close now found)

module _ {F A : Type 0} (ext : Externals F) where
  -- `submit` after the answer
  unfoldable pub record_submission :
      Env
      → Text
      → Submission
      → List ℕ
      → Validation F
      → SemanticEngineService F A
      → Result ServiceError (SemanticEngineService F A × Validation F)
  unfolding now_or find_record new_session_event new_delivery stored_event stored_delivery
      from_session_error update_record push_session_event push_delivery
  record_submission env session_id submission fingerprint validation s = do
    now ← now_or (env.now_ms 2)
    found ← ok_or (find_record session_id s.sessions) session_missing
    let event =
        new_session_event found now
          (SessionEventKind.validation_recorded (session_validation validation))
    let delivery = new_delivery fingerprint validation submission.text
    stored ← stored_event ext event
    stored_as ← stored_delivery ext delivery event.sequence
    tables ← map_err from_session_error (
        Operations.record_validation (env.session_io 0) s.session_store session_id stored stored_as
          s.config.max_events_per_session s.config.max_recorded_validations)
    ok (
      record s {
        session_store = tables;
        sessions =
            update_record session_id
              (λ r.
                push_delivery s.config.max_recorded_validations delivery
                  (push_session_event s.config.max_events_per_session event r))
              s.sessions;
      },
      validation,
    )

  -- `submit` with the answer of `validate`
  unfoldable pub submit_answer :
      Env
      → Text
      → Submission
      → List ℕ
      → SemanticEngineService F A × Result ServiceError (Validation F)
      → SemanticEngineService F A × Result ServiceError (Validation F)
  unfolding record_submission or_unchanged
  submit_answer env session_id submission fingerprint (s, err e) = (s, err e)
  submit_answer env session_id submission fingerprint (s, ok validation) =
      or_unchanged s (record_submission env session_id submission fingerprint validation s)

  -- `resolve_session` after the audit
  unfoldable pub emit_resolution :
      Env
      → Text
      → OperatorResolution
      → SemanticEngineService F A
      → Result ServiceError (SemanticEngineService F A × OperatorResolution)
  unfolding now_or find_record new_session_event stored_event from_session_error update_record
      push_session_event emit
  emit_resolution env session_id resolution s = do
    found ← ok_or (find_record session_id s.sessions) session_missing
    now ← now_or (env.now_ms 0)
    let event = new_session_event found now (SessionEventKind.resolution_recorded resolution)
    stored ← stored_event ext event
    tables ← map_err from_session_error (
        Operations.record_resolution (env.session_io 0) s.session_store session_id
          resolution.message_id stored s.config.max_events_per_session)
    ok (
      record s {
        session_store = tables;
        sessions =
            update_record session_id
              (λ r.
                emit resolution.message_id
                  (push_session_event s.config.max_events_per_session event r))
              s.sessions;
      },
      resolution,
    )

  -- `end_session` of a session that is active
  unfoldable pub end_active :
      Env
      → SessionRecord F
      → SemanticEngineService F A
      → Result ServiceError (SemanticEngineService F A × SessionSnapshot)
  unfolding now_or new_session_event stored_event from_session_error update_record finish
      session_snapshot
  end_active env found s = do
    now ← now_or (env.now_ms 0)
    let event = new_session_event found now SessionEventKind.session_ended
    stored ← stored_event ext event
    tables ← map_err from_session_error (
        Operations.end_session (env.session_io 0) s.session_store found.session_id stored
          s.config.max_events_per_session)
    let finished = finish s.config.max_events_per_session event now
    ok (
      record s {
        session_store = tables;
        sessions = update_record found.session_id finished s.sessions;
      },
      session_snapshot (finished found),
    )

  unfoldable pub end_found :
      Env
      → SemanticEngineService F A
      → Result ServiceError (SessionRecord F)
      → SemanticEngineService F A × Result ServiceError SessionSnapshot
  unfolding end_active or_unchanged session_snapshot
  end_found env s (err e) = (s, err e)
  end_found env s (ok found) =
      if is_over found.state
      then (s, ok (session_snapshot found))
      else or_unchanged s (end_active env found s)

  unfoldable pub end_session :
      Env
      → Text
      → SemanticEngineService F A
      → SemanticEngineService F A × Result ServiceError SessionSnapshot
  unfolding known end_found
  end_session env session_id s = end_found env s (known session_id s)

  -- `resolve_session` with the answer of the audit
  unfoldable pub after_audit :
      Env
      → Text
      → OperatorResolution
      → Bool
      → SemanticEngineService F A
      → Result Text (Unit {0})
      → SemanticEngineService F A × Result ServiceError OperatorResolution
  unfolding or_unchanged emit_resolution
  after_audit env session_id resolution emitted s (err message) = (s, err (audit message))
  after_audit env session_id resolution true s (ok done) = (s, ok resolution)
  after_audit env session_id resolution false s (ok done) =
      or_unchanged s (emit_resolution env session_id resolution s)

module _ {F A : Type 0} where
  -- What `resolve_session` reads before it calls the audit: the resolution, and whether it was
  -- emitted before.
  unfoldable pub session_resolution :
      Text
      → OperatorResolutionRequest
      → SemanticEngineService F A
      → Result ServiceError (OperatorResolution × Bool)
  unfolding live find_delivery validation_from_session resolution_error
  session_resolution session_id request s = do
    found ← live session_id s
    guard (found.round.id =t request.round_id) session_conflict
    delivery ← ok_or (find_delivery request.message_id found.deliveries) validation_missing
    resolution ←
        map_err resolution_error
          (resolve_validation found.round (validation_from_session delivery.validation) request)
    ok (resolution, delivery.resolution_emitted)

module _ (lib : Libraries) {A : Type 0} (ext : Externals lib.F64) (store : Audit lib.F64 A) where
  open lib use {F64}

  -- `submit` to a session that is active, with the delivery of the message that it holds
  unfoldable pub submit_live :
      Env
      → SessionRecord F64
      → Submission
      → SemanticEngineService F64 A
      → Option (SessionDelivery F64)
      → SemanticEngineService F64 A × Result ServiceError (Validation F64)
  unfolding submit_answer validate
  submit_live env found submission s (some delivery) =
      if delivery.request_fingerprint
        =t request_fingerprint ext found.round submission found.context_package_sha256
      then (
        record s {
          stats = record s.stats { deduplicated = saturating_add s.stats.deduplicated 1 };
        },
        ok (Validate.validate lib found.round submission),
      )
      else (s, err identity_conflict)
  submit_live env found submission s none =
      submit_answer ext env found.session_id submission
        (request_fingerprint ext found.round submission found.context_package_sha256)
        (validate lib ext store env found.round submission found.context_package_sha256 s)

  unfoldable pub submit :
      Env
      → Text
      → Submission
      → SemanticEngineService F64 A
      → SemanticEngineService F64 A × Result ServiceError (Validation F64)
  unfolding live find_delivery submit_live
  submit env session_id submission s = elim (live session_id s) [
    | err e ↦ (s, err e)
    | ok found ↦
        submit_live env found submission s (find_delivery submission.message_id found.deliveries)
  ]

  unfoldable pub resolve_session :
      Env
      → Text
      → OperatorResolutionRequest
      → SemanticEngineService F64 A
      → SemanticEngineService F64 A × Result ServiceError OperatorResolution
  unfolding session_resolution after_audit
  resolve_session env session_id request s = elim (session_resolution session_id request s) [
    | err e ↦ (s, err e)
    | ok (resolution, emitted) ↦
        let audited = store.record_resolution env.audit_io env.audit_clock s.audit resolution in
        after_audit ext env session_id resolution emitted (record s { audit = audited.0 }) audited.1
  ]
