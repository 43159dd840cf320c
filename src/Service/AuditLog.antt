-- ===== src/Service/AuditLog.antt =====
-- The audit store of crates/semantic-engine-audit-store behind the interface that
-- crates/semantic-engine-service/src/lib.rs calls, and what the service leaves in it.
use semantic_engine.Common.{ℕ, Text, Option, none, some, List, ◌≡◌, sym, subst, arith, inl, inr}
use semantic_engine.Common.Results.{Result, ok, err, map_err, Result-cases}
use semantic_engine.Core.Libraries.{Libraries}
use semantic_engine.Core.Types.{Round, Submission, Validation}
use semantic_engine.AuditStore
use semantic_engine.AuditStore.Types.{
  RetentionPolicy, AuditEntry, AuditError, StoredValidation, ValidationRow, Tables, RoundTrips,
  map_score,
}
use semantic_engine.AuditStore.Checks.{validate_retention, audit_message}
use semantic_engine.AuditStore.Operations.{find_message, stored_validation}
use semantic_engine.AuditStore.Record.{record_validation, record_resolution, recent, purge_all}
use semantic_engine.AuditStore.RoundTrip.{record_validation-found}
use semantic_engine.AuditStore.Invariant.{IsKept, records, Step-IsKept}
use semantic_engine.MemoryStore.Types.{MemoryEntry, Table}
use semantic_engine.Service.Types.{ServiceError, audit, SemanticEngineService}
use semantic_engine.Service.Externals.{Externals, Audit, Env}
use semantic_engine.Service.Cache.{take_cached, insert_cache, prune_expired_cache}
use semantic_engine.Service.Validate.{
  find_recorded, serve, serve_taken, record_answer, conclude, answer_new, answer_with,
  look_up_and_answer, answer_or_redeliver, validate,
}

-- An operation of the audit in its transaction, with its failure as a message
unfoldable pub settled {ℓ} :
    {B : Type ℓ} → Tables → Result AuditError (Tables × B) → Tables × Result Text (Unit {0})
unfolding audit_message
settled t (ok (u, entry)) = (u, ok tt)
settled t (err e) = (t, err (audit_message e))

unfoldable pub purged : Tables × Result AuditError ℕ → Tables × Result Text ℕ
unfolding audit_message
purged (t, answer) = (t, map_err audit_message answer)

serve-audit :
    {F A : Type 0} (env : Env) (key : List ℕ) (round : Round F) (submission : Submission)
    (v : Validation F) (s : SemanticEngineService F A)
    → (serve env key round submission v s).0.audit ≡ s.audit
unfolding serve serve_taken take_cached insert_cache
serve-audit env key round submission v s = ground arith

module _ (lib : Libraries) (codec : AuditStore.Types.Externals lib.F64)
    (retention : RetentionPolicy) where
  unfoldable pub audit_log : Audit lib.F64 Tables
  unfolding record_validation record_resolution purge_all settled
  audit_log = record {
    record_validation = λ io clock t validation context. settled t (
        record_validation lib codec retention (record { io = io; clock = clock }) t validation
          context);
    record_resolution = λ io clock t resolution.
        settled t
          (record_resolution lib codec retention (record { io = io; clock = clock }) t resolution);
    purge_all = λ io t. purged (purge_all io t);
  }

  unfoldable pub recent_audit :
      Option Text
      → SemanticEngineService lib.F64 Tables
      → ℕ
      → Result ServiceError (List (AuditEntry lib.F64))
  unfolding recent audit_message
  recent_audit answer s limit =
      map_err (λ e. audit (audit_message e)) (recent lib codec retention answer s.audit limit)

  -- The validation is on record in the tables, and it is read back with its score as `reread` gives it.
  abbrev pub IsOnRecord : (lib.F64 → lib.F64) → Validation lib.F64 → Option Text → Tables → Type 0
  IsOnRecord reread v context t =
      (row : ValidationRow) × (find_message v.round_id v.message_id t.validations ≡ some row)
      × (codec.decode_validation row.payload_json
          ≡ ok (map_score reread (stored_validation v context)))

  module _ (laws : RoundTrips codec) (valid : validate_retention retention ≡ ok tt) where
    record_answer-OnRecord :
        (env : Env) (fingerprint : List ℕ) (round : Round lib.F64) (context : Option Text)
        (v : Validation lib.F64) (s : SemanticEngineService lib.F64 Tables) {w : Validation lib.F64}
        → IsKept codec retention.max_validations s.audit
        → (record_answer audit_log env fingerprint round context v s).1 ≡ ok w
        → let u = (record_answer audit_log env fingerprint round context v s).0 in
          IsOnRecord laws.reread w context u.audit × IsKept codec retention.max_validations u.audit
    unfolding record_answer audit_log settled
    record_answer-OnRecord env fingerprint round context v s {w} kept e =
        elim (Result-cases (
          record_validation lib codec retention
            (record { io = env.audit_io; clock = env.audit_clock }) s.audit v context)) [
              | inr (bad, is_bad) ↦ ground (arith, is_bad, e)
              | inl (r, is_r) ↦
                  let is_w : w ≡ v = ground (arith, is_r, e) in
                  let is_audit : r.0
                      ≡ (record_answer audit_log env fingerprint round context v s).0.audit =
                    ground (arith, is_r) in
                  subst
                    (λ t.
                      IsOnRecord laws.reread w context t × IsKept codec retention.max_validations t)
                    is_audit
                    (
                      rw is_w (
                          record_validation-found lib codec laws retention valid
                            (record { io = env.audit_io; clock = env.audit_clock }) s.audit v
                            context kept.0 is_r),
                      Step-IsKept lib codec laws retention
                          (records (record { io = env.audit_io; clock = env.audit_clock }) v context
                            is_r)
                          kept,
                    )
            ]

    conclude-OnRecord :
        (env : Env) (fingerprint : List ℕ) (round : Round lib.F64) (context : Option Text)
        (v : Validation lib.F64) (s : SemanticEngineService lib.F64 Tables)
        (used : Result ServiceError Table) {w : Validation lib.F64}
        → IsKept codec retention.max_validations s.audit
        → (conclude audit_log env fingerprint round context v s used).1 ≡ ok w
        → let u = (conclude audit_log env fingerprint round context v s used).0 in
          IsOnRecord laws.reread w context u.audit × IsKept codec retention.max_validations u.audit
    unfolding conclude
    conclude-OnRecord env fingerprint round context v s (err bad) {w} kept e = cc
    conclude-OnRecord env fingerprint round context v s (ok memory) {w} kept e =
        record_answer-OnRecord env fingerprint round context v (record s { memory = memory }) kept e

    answer_new-OnRecord :
        (ext : Externals lib.F64) (env : Env) (round : Round lib.F64) (submission : Submission)
        (context : Option Text) (matches : List MemoryEntry)
        (s : SemanticEngineService lib.F64 Tables) {w : Validation lib.F64}
        → IsKept codec retention.max_validations s.audit
        → (answer_new lib ext audit_log env round submission context matches s).1 ≡ ok w
        → let u = (answer_new lib ext audit_log env round submission context matches s).0 in
          IsOnRecord laws.reread w context u.audit × IsKept codec retention.max_validations u.audit
    unfolding answer_new
    answer_new-OnRecord ext env round submission context matches s {w} kept e =
        conclude-OnRecord env _ round context _ _ _
          (rw (serve-audit env _ round submission _ s) kept) e

    answer_with-OnRecord :
        (ext : Externals lib.F64) (env : Env) (round : Round lib.F64) (submission : Submission)
        (context : Option Text) (s : SemanticEngineService lib.F64 Tables)
        (found : Result ServiceError (Table × List MemoryEntry)) {w : Validation lib.F64}
        → IsKept codec retention.max_validations s.audit
        → (answer_with lib ext audit_log env round submission context s found).1 ≡ ok w
        → let u = (answer_with lib ext audit_log env round submission context s found).0 in
          IsOnRecord laws.reread w context u.audit × IsKept codec retention.max_validations u.audit
    unfolding answer_with
    answer_with-OnRecord ext env round submission context s (err bad) {w} kept e = cc
    answer_with-OnRecord ext env round submission context s (ok (memory, matches)) {w} kept e =
        answer_new-OnRecord ext env round submission context matches (record s { memory = memory })
          kept e

    -- Every answer to a message that was not recorded yet goes on record: with the audit store behind
    -- the service, where `validate` answers such a message the audit holds that answer with the package
    -- of the context, which is read back as it was given but for the score, which is as `serde_json`
    -- reads the digits that it wrote, and the audit keeps its own invariant.
    pub validate-OnRecord :
        (ext : Externals lib.F64) (env : Env) (round : Round lib.F64) (submission : Submission)
        (context : Option Text) (s : SemanticEngineService lib.F64 Tables) {w : Validation lib.F64}
        → IsKept codec retention.max_validations s.audit
        → find_recorded round.id submission.message_id s.recorded ≡ none
        → (validate lib ext audit_log env round submission context s).1 ≡ ok w
        → let u = (validate lib ext audit_log env round submission context s).0 in
          IsOnRecord laws.reread w context u.audit × IsKept codec retention.max_validations u.audit
    unfolding validate prune_expired_cache answer_or_redeliver look_up_and_answer
    validate-OnRecord ext env round submission context s {w} kept fresh e =
        let t : SemanticEngineService lib.F64 Tables = prune_expired_cache env.pruned_at s in
        subst
          (λ found.
            let u = answer_or_redeliver lib ext audit_log env round submission context t found in
            u.1 ≡ ok w
            → IsOnRecord laws.reread w context u.0.audit
              × IsKept codec retention.max_validations u.0.audit)
          (sym fresh) (answer_with-OnRecord ext env round submission context t _ kept) e
