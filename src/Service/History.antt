-- ===== src/Service/History.antt =====
-- Every sequence of operations on the service of crates/semantic-engine-service/src/lib.rs.
use semantic_engine.Common.{
  ℕ, Text, Bool, Option, none, some, Bool-cases, ◌=t◌, ◌≡◌, subst, inl, inr,
}
use semantic_engine.Common.Results.{Result-cases, ok}
use semantic_engine.Common.Machine.{Io}
use semantic_engine.Core.Libraries.{Libraries}
use semantic_engine.Core.Types.{Round, Submission, OperatorResolutionRequest}
use semantic_engine.MemoryStore.Types.{MemoryEntry}
use semantic_engine.MemoryStore.Operations.{Context}
use semantic_engine.AuditStore.Types.{Tables}
use semantic_engine.Service.Types.{
  StartSession, SessionRecord, SessionDelivery, SemanticEngineService,
}
use semantic_engine.Service.Externals.{Externals, Audit, Env}
use semantic_engine.Service.Fingerprints.{session_definition_fingerprint, request_fingerprint}
use semantic_engine.Service.Records.{validate_session_request, find_record, find_delivery}
use semantic_engine.Service.Sessions.{known, live, start_session}
use semantic_engine.Service.Submissions.{
  submit_live, submit, end_session, session_resolution, resolve_session,
}
use semantic_engine.Service.Validate.{validate, resolve}
use semantic_engine.Service.Memory.{recognition_memory, revoke_memory, remember_session_resolution}
use semantic_engine.Service.Purge.{purge_local_data}
use semantic_engine.Service.StepBounds.{
  SameBut-IsBounded, recognition_memory-SameBut, revoke_memory-SameBut, resolve-SameBut,
  remember-SameBut, purge_local_data-IsBounded,
}
use semantic_engine.Service.Bounds.{IsBounded, validate-IsBounded}
use semantic_engine.Service.SessionBounds.{
  start-IsBounded, end_found-IsBounded, submit_answer-IsBounded, after_audit-IsBounded,
}

module _ (lib : Libraries) (ext : Externals lib.F64) (store : Audit lib.F64 Tables) where
  open lib use {F64}

  -- One operation that changes the service, with whatever it reads from outside and whatever it answers
  pub data Step : SemanticEngineService F64 Tables → SemanticEngineService F64 Tables → Type 0 where
    validates :
        {s t : SemanticEngineService F64 Tables} (env : Env) (round : Round F64)
        (submission : Submission) (context : Option Text)
        → (validate lib ext store env round submission context s).0 ≡ t
        → Step s t
    starts :
        {s t : SemanticEngineService F64 Tables} (env : Env) (request : StartSession F64)
        → (start_session lib ext env request s).0 ≡ t
        → Step s t
    submits :
        {s t : SemanticEngineService F64 Tables} (env : Env) (id : Text) (submission : Submission)
        → (submit lib ext store env id submission s).0 ≡ t
        → Step s t
    resolves :
        {s t : SemanticEngineService F64 Tables} (env : Env) (id : Text)
        (request : OperatorResolutionRequest)
        → (resolve_session lib ext store env id request s).0 ≡ t
        → Step s t
    ends :
        {s t : SemanticEngineService F64 Tables} (env : Env) (id : Text)
        → (end_session ext env id s).0 ≡ t
        → Step s t
    resolves_alone :
        {s t : SemanticEngineService F64 Tables} (env : Env) (request : OperatorResolutionRequest)
        → (resolve lib ext store env request s).0 ≡ t
        → Step s t
    remembers :
        {s t : SemanticEngineService F64 Tables} (env : Env) (id message_id : Text)
        {entry : MemoryEntry}
        → remember_session_resolution lib ext env id message_id s ≡ ok (t, entry)
        → Step s t
    lists_memory :
        {s t : SemanticEngineService F64 Tables} (env : Env) (context : Text) (limit : ℕ)
        (active_only : Bool)
        → (recognition_memory env context limit active_only s).0 ≡ t
        → Step s t
    revokes :
        {s t : SemanticEngineService F64 Tables} (env : Env) (context id : Text)
        → (revoke_memory env context id s).0 ≡ t
        → Step s t
    purges :
        {s t : SemanticEngineService F64 Tables} (has_file : Bool) (io : Io) (c : Context)
        (audit_io : Io)
        → (purge_local_data has_file io c audit_io s).0 ≡ t
        → Step s t

  pub data Reach (s : SemanticEngineService F64 Tables)
      : SemanticEngineService F64 Tables → Type 0 where
    here : Reach s s
    next : {t w : SemanticEngineService F64 Tables} → Reach s t → Step t w → Reach s w

  start_session-IsBounded :
      (env : Env) (request : StartSession F64) (s : SemanticEngineService F64 Tables)
      → IsBounded s
      → IsBounded (start_session lib ext env request s).0
  unfolding start_session
  start_session-IsBounded env request s b =
      elim (Result-cases (validate_session_request lib request)) [
        | inr (x, wrong) ↦ rw (wrong, start_session) b
        | inl (tt, valid) ↦
            rw (valid, start_session)
              (start-IsBounded ext env request (session_definition_fingerprint ext request) s
                (find_record request.session_id s.sessions) b)
      ]

  submit_live-IsBounded :
      (env : Env) (r : SessionRecord F64) (submission : Submission)
      (s : SemanticEngineService F64 Tables) (found : Option (SessionDelivery F64))
      → IsBounded s
      → IsBounded (submit_live lib ext store env r submission s found).0
  unfolding submit_live
  submit_live-IsBounded env r submission s none b =
      submit_answer-IsBounded ext env r.session_id submission _ _
        (validate-IsBounded lib ext store env r.round submission r.context_package_sha256 s b)
  submit_live-IsBounded env r submission s (some d) b =
      elim (Bool-cases (
        d.request_fingerprint
        =t request_fingerprint ext r.round submission r.context_package_sha256)) [
          | inl same ↦
              rw (same, submit_live)
                (record {
                  cached = b.cached;
                  recorded = b.recorded;
                  opened = b.opened;
                  sessions = b.sessions;
                })
          | inr other ↦ rw (other, submit_live) b
        ]

  submit-IsBounded :
      (env : Env) (id : Text) (submission : Submission) (s : SemanticEngineService F64 Tables)
      → IsBounded s
      → IsBounded (submit lib ext store env id submission s).0
  unfolding submit
  submit-IsBounded env id submission s b = elim (Result-cases (live id s)) [
    | inr (x, refused) ↦ rw (refused, submit) b
    | inl (r, found) ↦
        rw (found, submit)
          (submit_live-IsBounded env r submission s
            (find_delivery submission.message_id r.deliveries) b)
  ]

  resolve_session-IsBounded :
      (env : Env) (id : Text) (request : OperatorResolutionRequest)
      (s : SemanticEngineService F64 Tables)
      → IsBounded s
      → IsBounded (resolve_session lib ext store env id request s).0
  unfolding resolve_session
  resolve_session-IsBounded env id request s b =
      elim (Result-cases (session_resolution id request s)) [
        | inr (x, refused) ↦ rw (refused, resolve_session) b
        | inl ((resolution, emitted), given) ↦
            let audited = store.record_resolution env.audit_io env.audit_clock s.audit resolution in
            let t : SemanticEngineService F64 Tables = record s { audit = audited.0 } in
            rw (given, resolve_session)
              (after_audit-IsBounded ext env id resolution emitted t audited.1 (record {
                cached = b.cached;
                recorded = b.recorded;
                opened = b.opened;
                sessions = b.sessions;
              }))
      ]

  Step-IsBounded : {s t : SemanticEngineService F64 Tables} → Step s t → IsBounded s → IsBounded t
  unfolding end_session
  Step-IsBounded {s} (validates env round submission context e) b =
      subst IsBounded e (validate-IsBounded lib ext store env round submission context s b)
  Step-IsBounded {s} (starts env request e) b =
      subst IsBounded e (start_session-IsBounded env request s b)
  Step-IsBounded {s} (submits env id submission e) b =
      subst IsBounded e (submit-IsBounded env id submission s b)
  Step-IsBounded {s} (resolves env id request e) b =
      subst IsBounded e (resolve_session-IsBounded env id request s b)
  Step-IsBounded {s} (ends env id e) b =
      subst IsBounded e (end_found-IsBounded ext env s (known id s) b)
  Step-IsBounded {s} (resolves_alone env request e) b = subst IsBounded e (
      SameBut-IsBounded s (resolve lib ext store env request s).0
        (resolve-SameBut lib ext store env request s) b)
  Step-IsBounded {s} {t} (remembers env id message_id e) b =
      SameBut-IsBounded s t (remember-SameBut lib ext store env id message_id s e) b
  Step-IsBounded {s} (lists_memory env context limit active_only e) b = subst IsBounded e (
      SameBut-IsBounded s (recognition_memory env context limit active_only s).0
        (recognition_memory-SameBut env context limit active_only s) b)
  Step-IsBounded {s} (revokes env context id e) b = subst IsBounded e (
      SameBut-IsBounded s (revoke_memory env context id s).0
        (revoke_memory-SameBut env context id s) b)
  Step-IsBounded {s} (purges has_file io c audit_io e) b =
      subst IsBounded e (purge_local_data-IsBounded has_file io c audit_io s b)

  -- Whatever is validated, resolved, remembered, listed, revoked, started, submitted, ended or purged
  -- on a service that is within its configuration, and whether it succeeds or fails, the cache, the recorded answers, the sessions and the events and the deliveries of each
  -- session stay within the configuration.
  pub Reach-IsBounded :
      {s t : SemanticEngineService F64 Tables} → IsBounded s → Reach s t → IsBounded t
  Reach-IsBounded b here = b
  Reach-IsBounded b (next r step) = Step-IsBounded step (Reach-IsBounded b r)
