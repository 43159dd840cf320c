-- ===== src/Service/Validate.antt =====
-- `validate` and `resolve` of crates/semantic-engine-service/src/lib.rs. An operation gives the
-- service after it, also where it fails, and its answer; `?` returns the state reached so far.
use semantic_engine.Common.{
  ℕ, Text, Bool, true, Option, none, some, List, [], ◌∷◌, ◌++◌, map, ◌&&◌, ◌=t◌, if◌then◌else◌,
  find, trim_front,
}
use semantic_engine.Common.Results.{Result, ok, err, ◌>>=◌, ok_or, map_err}
use semantic_engine.Common.Machine.{saturating_add}
use semantic_engine.Core.Libraries.{Libraries}
use semantic_engine.Core.Types.{
  Round, Submission, Validation, OperatorResolutionRequest, OperatorResolution,
}
use semantic_engine.Core.Resolve.{resolve_validation}
use semantic_engine.MemoryStore.Types.{MemoryEntry, Table}
use semantic_engine.MemoryStore.Operations.{mark_used}
use semantic_engine.Service.Types.{
  ServiceError, identity_conflict, validation_missing, audit, RecordedValidation,
  SemanticEngineService,
}
use semantic_engine.Service.Config.{from_memory_error, resolution_error, now_or}
use semantic_engine.Service.Externals.{Externals, Audit, Env}
use semantic_engine.Service.Fingerprints.{request_fingerprint, cache_fingerprint}
use semantic_engine.Service.Cache.{take_cached, prune_expired_cache, insert_cache}
use semantic_engine.Service.Recognition.{memory_context, validation_with_memory, memory_matches}

module _ {F : Type 0} where
  -- `recorded.iter().find(..)`
  unfoldable pub find_recorded :
      Text → Text → List (RecordedValidation F) → Option (RecordedValidation F)
  find_recorded round_id message_id = find (λ (r : RecordedValidation F).
      r.validation.round_id =t round_id && r.validation.message_id =t message_id)

  -- A hit in the cache with the identity of the submission
  unfoldable pub readdress : Round F → Submission → Validation F → Validation F
  readdress round submission cached = record cached {
    round_id = round.id;
    message_id = submission.message_id;
    participant_id = submission.participant_id;
    source_sequence = submission.source_sequence;
  }

module _ {F A : Type 0} where
  -- The answer that `take_cached` gave, or the computed one, which enters the cache
  unfoldable pub serve_taken :
      Env
      → List ℕ
      → Round F
      → Submission
      → Validation F
      → SemanticEngineService F A × Option (Validation F)
      → SemanticEngineService F A × Validation F
  unfolding insert_cache readdress
  serve_taken env key round submission computed (t, some cached) = (
    record t { stats = record t.stats { cache_hits = saturating_add t.stats.cache_hits 1 } },
    readdress round submission cached,
  )
  serve_taken env key round submission computed (t, none) = (
    insert_cache (env.instant 1) key computed (record t {
      stats = record t.stats { cache_misses = saturating_add t.stats.cache_misses 1 };
    }),
    computed,
  )

  unfoldable pub serve :
      Env
      → List ℕ
      → Round F
      → Submission
      → Validation F
      → SemanticEngineService F A
      → SemanticEngineService F A × Validation F
  unfolding take_cached serve_taken
  serve env key round submission computed s =
      serve_taken env key round submission computed (take_cached (env.instant 0) key s)

  -- The end of `validate`: the audit, then `recorded`.
  unfoldable pub record_answer :
      Audit F A
      → Env
      → List ℕ
      → Round F
      → Option Text
      → Validation F
      → SemanticEngineService F A
      → SemanticEngineService F A × Result ServiceError (Validation F)
  record_answer store env fingerprint round context validation s =
      let (a, answer) =
        store.record_validation env.audit_io env.audit_clock s.audit validation context in
      elim answer [
        | err message ↦ (record s { audit = a }, err (audit message))
        | ok done ↦ (
          record s {
            audit = a;
            recorded = trim_front s.config.max_recorded_validations (
                s.recorded
                ++ (record {
                  request_fingerprint = fingerprint;
                  round = round;
                  validation = validation;
                })
                  ∷ []);
          },
          ok validation,
        )
      ]

  -- `validate` with what `mark_used` gave
  unfoldable pub conclude :
      Audit F A
      → Env
      → List ℕ
      → Round F
      → Option Text
      → Validation F
      → SemanticEngineService F A
      → Result ServiceError Table
      → SemanticEngineService F A × Result ServiceError (Validation F)
  unfolding record_answer
  conclude store env fingerprint round context validation s (err e) = (s, err e)
  conclude store env fingerprint round context validation s (ok memory) =
      record_answer store env fingerprint round context validation (record s { memory = memory })

  -- A delivery whose identity is recorded
  unfoldable pub redeliver :
      List ℕ
      → RecordedValidation F
      → SemanticEngineService F A
      → SemanticEngineService F A × Result ServiceError (Validation F)
  redeliver fingerprint r s =
      if r.request_fingerprint =t fingerprint
      then (
        record s {
          stats = record s.stats { deduplicated = saturating_add s.stats.deduplicated 1 };
        },
        ok r.validation,
      )
      else (s, err identity_conflict)

-- The use of the matches is noted only where they gave the answer.
unfoldable pub note_use :
    Env → Bool → Option Text → List MemoryEntry → Table → Result ServiceError Table
unfolding now_or from_memory_error
note_use env true (some context) matches memory = do
  now ← now_or (env.now_ms 1)
  map_err from_memory_error (
      mark_used (memory_context env 1 now) memory context (map (λ (e : MemoryEntry). e.id) matches))
note_use env applied context matches memory = ok memory

module _ (lib : Libraries) {A : Type 0} (ext : Externals lib.F64) (store : Audit lib.F64 A) where
  open lib use {F64}

  -- `validate` once the matches in memory are known
  unfoldable pub answer_new :
      Env
      → Round F64
      → Submission
      → Option Text
      → List MemoryEntry
      → SemanticEngineService F64 A
      → SemanticEngineService F64 A × Result ServiceError (Validation F64)
  unfolding serve note_use conclude
  answer_new env round submission context matches s =
      let fingerprint = request_fingerprint ext round submission context in
      let key = cache_fingerprint ext round submission.text context matches in
      let computed = validation_with_memory lib round submission matches in
      let served = serve env key round submission computed.0 s in
      conclude store env fingerprint round context served.1 served.0
        (note_use env computed.1 context matches served.0.memory)

  -- `validate` with what `memory_matches` gave
  unfoldable pub answer_with :
      Env
      → Round F64
      → Submission
      → Option Text
      → SemanticEngineService F64 A
      → Result ServiceError (Table × List MemoryEntry)
      → SemanticEngineService F64 A × Result ServiceError (Validation F64)
  unfolding answer_new
  answer_with env round submission context s (err e) = (s, err e)
  answer_with env round submission context s (ok (memory, matches)) =
      answer_new env round submission context matches (record s { memory = memory })

  unfoldable pub look_up_and_answer :
      Env
      → Round F64
      → Submission
      → Option Text
      → SemanticEngineService F64 A
      → SemanticEngineService F64 A × Result ServiceError (Validation F64)
  unfolding answer_with now_or memory_matches
  look_up_and_answer env round submission context s = answer_with env round submission context s (
      now_or (env.now_ms 0) >>= λ now.
      memory_matches lib env now s.memory round submission.text context)

  unfoldable pub answer_or_redeliver :
      Env
      → Round F64
      → Submission
      → Option Text
      → SemanticEngineService F64 A
      → Option (RecordedValidation F64)
      → SemanticEngineService F64 A × Result ServiceError (Validation F64)
  unfolding redeliver look_up_and_answer
  answer_or_redeliver env round submission context s (some r) =
      redeliver (request_fingerprint ext round submission context) r s
  answer_or_redeliver env round submission context s none =
      look_up_and_answer env round submission context s

  unfoldable pub validate :
      Env
      → Round F64
      → Submission
      → Option Text
      → SemanticEngineService F64 A
      → SemanticEngineService F64 A × Result ServiceError (Validation F64)
  unfolding prune_expired_cache find_recorded answer_or_redeliver
  validate env round submission context s =
      let t = prune_expired_cache env.pruned_at s in
      answer_or_redeliver env round submission context t
        (find_recorded round.id submission.message_id t.recorded)

  unfoldable pub resolve :
      Env
      → OperatorResolutionRequest
      → SemanticEngineService F64 A
      → SemanticEngineService F64 A × Result ServiceError OperatorResolution
  unfolding find_recorded resolution_error
  resolve env request s =
      elim (ok_or (find_recorded request.round_id request.message_id s.recorded) validation_missing
        >>= λ r. map_err resolution_error (resolve_validation r.round r.validation request)) [
          | err e ↦ (s, err e)
          | ok resolution ↦
              let (a, answer) =
                store.record_resolution env.audit_io env.audit_clock s.audit resolution in
              elim answer [
                | err message ↦ (record s { audit = a }, err (audit message))
                | ok done ↦ (record s { audit = a }, ok resolution)
              ]
        ]
