-- ===== src/Service/Dedup.antt =====
-- What `validate` of crates/semantic-engine-service/src/lib.rs keeps of its answers.
use semantic_engine.Common.{
  ℕ, Text, Bool, true, Option, none, some, List, [], ◌∷◌, ◌++◌, ◌&&◌, ◌=t◌, ◌<◌, find, trim_front,
  ◌≡◌, refl, sym, subst, arith,
}
use semantic_engine.Common.Results.{Result, ok, err}
use semantic_engine.Core.Libraries.{Libraries}
use semantic_engine.Core.Types.{Round, Submission, Validation}
use semantic_engine.Core.Validate.Coherence.{validate-IsCoherent}
use semantic_engine.MemoryStore.Types.{MemoryEntry, Table}
use semantic_engine.Service.Recognition.{validation_with_memory, memory_answer}
use semantic_engine.Service.Types.{ServiceError, RecordedValidation, SemanticEngineService}
use semantic_engine.Service.Externals.{Externals, Audit, Env}
use semantic_engine.Service.Fingerprints.{request_fingerprint, cache_fingerprint}
use semantic_engine.Service.Cache.{prune_expired_cache, take_cached, insert_cache}
use semantic_engine.Service.Validate.{
  conclude, answer_with, answer_or_redeliver, find_recorded, validate, serve_taken, serve, note_use,
  record_answer, redeliver, answer_new, look_up_and_answer, readdress,
}

module _ {F : Type 0} where
  find-append :
      (p : RecordedValidation F → Bool) (rs : List (RecordedValidation F))
      (r : RecordedValidation F)
      → find p rs ≡ none
      → p r ≡ true
      → find p (rs ++ r ∷ []) ≡ some r
  find-append p [] r gone fits = ground arith
  find-append p (x ∷ rs) r gone fits = ground (arith, find-append p rs r)

  find-trim_front :
      (p : RecordedValidation F → Bool) (keep : ℕ) (rs : List (RecordedValidation F))
      (r : RecordedValidation F)
      → 0 < keep
      → find p rs ≡ none
      → p r ≡ true
      → find p (trim_front keep (rs ++ r ∷ [])) ≡ some r
  find-trim_front p keep [] r h gone fits = ground arith
  find-trim_front p keep (x ∷ rs) r h gone fits =
      ground (arith, find-trim_front p keep rs r h, find-append p rs r)

module _ {F A : Type 0} where
  insert_cache-recorded :
      (now : ℕ) (key : List ℕ) (v : Validation F) (s : SemanticEngineService F A)
      → (insert_cache now key v s).recorded ≡ s.recorded
  unfolding insert_cache
  insert_cache-recorded now key v s = ground arith

  serve-recorded :
      (env : Env) (key : List ℕ) (round : Round F) (submission : Submission) (v : Validation F)
      (s : SemanticEngineService F A)
      → ((serve env key round submission v s).0.recorded ≡ s.recorded)
        × ((serve env key round submission v s).0.config ≡ s.config)
  unfolding serve serve_taken take_cached insert_cache
  serve-recorded env key round submission v s = ground arith

  -- The recorded answer that a delivery leaves
  abbrev Holds : List ℕ → Round F → Submission → Validation F → SemanticEngineService F A → Type 0
  Holds fingerprint round submission v s =
      (r : RecordedValidation F) × (find_recorded round.id submission.message_id s.recorded
        ≡ some r)
      × (r.request_fingerprint ≡ fingerprint)
      × (r.validation ≡ v)

  record_answer-Holds :
      (store : Audit F A) (env : Env) (fingerprint : List ℕ) (round : Round F)
      (submission : Submission) (context : Option Text) (v : Validation F)
      (s : SemanticEngineService F A)
      → 0 < s.config.max_recorded_validations
      → find_recorded round.id submission.message_id s.recorded ≡ none
      → v.round_id ≡ round.id
      → v.message_id ≡ submission.message_id
      → {w : Validation F} → (record_answer store env fingerprint round context v s).1 ≡ ok w
      → Holds fingerprint round submission w
          (record_answer store env fingerprint round context v s).0
  unfolding record_answer find_recorded
  record_answer-Holds store env fingerprint round submission context v s h gone i m e =
      let r : RecordedValidation F = record {
        request_fingerprint = fingerprint;
        round = round;
        validation = v;
      } in
      (
        r,
        ground (
          arith,
          find-trim_front
              (λ (r : RecordedValidation F).
                r.validation.round_id =t round.id
                && r.validation.message_id =t submission.message_id)
              s.config.max_recorded_validations s.recorded r h gone,
        ),
        refl,
        ground arith,
      )

module _ {F A : Type 0} where
  serve-identity :
      (env : Env) (key : List ℕ) (round : Round F) (submission : Submission) (v : Validation F)
      (s : SemanticEngineService F A)
      → (v.round_id ≡ round.id) × (v.message_id ≡ submission.message_id)
      → ((serve env key round submission v s).1.round_id ≡ round.id)
        × ((serve env key round submission v s).1.message_id ≡ submission.message_id)
  unfolding serve serve_taken readdress take_cached
  serve-identity env key round submission v s h = ground (arith, h)

module _ (lib : Libraries) {A : Type 0} (ext : Externals lib.F64) (store : Audit lib.F64 A) where
  open lib use {F64}

  validation_with_memory-identity :
      (round : Round F64) (submission : Submission) (matches : List MemoryEntry)
      → let v = (validation_with_memory lib round submission matches).0 in
        (v.round_id ≡ round.id) × (v.message_id ≡ submission.message_id)
  unfolding validation_with_memory memory_answer
  validation_with_memory-identity round submission [] =
      let c = (validate-IsCoherent lib round submission).0 in (c.round_id, c.message_id)
  validation_with_memory-identity round submission (first ∷ rest) =
      let c = (validate-IsCoherent lib round submission).0 in
      ground (arith, c.round_id, c.message_id)

  held :
      (env : Env) (round : Round F64) (submission : Submission) (context : Option Text)
      (t : SemanticEngineService F64 A) (r : RecordedValidation F64) {v : Validation F64}
      → find_recorded round.id submission.message_id t.recorded ≡ some r
      → r.request_fingerprint ≡ request_fingerprint ext round submission context
      → r.validation ≡ v
      → let u = validate lib ext store env round submission context t in
        (u.1 ≡ ok v) × (u.0.recorded ≡ t.recorded) × (u.0.audit ≡ t.audit) × (u.0.memory ≡ t.memory)
  unfolding validate prune_expired_cache answer_or_redeliver redeliver
  held env round submission context t r found same answer = rw found (ground (arith, same, answer))

  module _ (env : Env) (round : Round F64) (submission : Submission) (context : Option Text) where
    abbrev fingerprint : List ℕ
    fingerprint = request_fingerprint ext round submission context

    conclude-Holds :
        (s : SemanticEngineService F64 A) (v : Validation F64) (r : Result ServiceError Table)
        {w : Validation F64}
        → 0 < s.config.max_recorded_validations
        → find_recorded round.id submission.message_id s.recorded ≡ none
        → (v.round_id ≡ round.id) × (v.message_id ≡ submission.message_id)
        → (conclude store env fingerprint round context v s r).1 ≡ ok w
        → Holds fingerprint round submission w
            (conclude store env fingerprint round context v s r).0
    unfolding conclude
    conclude-Holds s v (err x) h gone ids e = cc
    conclude-Holds s v (ok memory) h gone (i, m) e =
        record_answer-Holds store env fingerprint round submission context v
          (record s { memory = memory }) h gone i m e

    answer_new-Holds :
        (matches : List MemoryEntry) (s : SemanticEngineService F64 A) {v : Validation F64}
        → 0 < s.config.max_recorded_validations
        → find_recorded round.id submission.message_id s.recorded ≡ none
        → (answer_new lib ext store env round submission context matches s).1 ≡ ok v
        → Holds fingerprint round submission v
            (answer_new lib ext store env round submission context matches s).0
    unfolding answer_new
    answer_new-Holds matches s {v} h gone e =
        let key = cache_fingerprint ext round submission.text context matches in
        let computed = validation_with_memory lib round submission matches in
        let served = serve env key round submission computed.0 s in
        let (kept, same) = serve-recorded env key round submission computed.0 s in
        conclude-Holds served.0 served.1 (note_use env computed.1 context matches served.0.memory)
          (subst (λ c. 0 < c.max_recorded_validations) (sym same) h)
          (subst (λ rs. find_recorded round.id submission.message_id rs ≡ none) (sym kept) gone)
          (serve-identity env key round submission computed.0 s
            (validation_with_memory-identity round submission matches))
          e

    answer_with-Holds :
        (s : SemanticEngineService F64 A) (found : Result ServiceError (Table × List MemoryEntry))
        {v : Validation F64}
        → 0 < s.config.max_recorded_validations
        → find_recorded round.id submission.message_id s.recorded ≡ none
        → (answer_with lib ext store env round submission context s found).1 ≡ ok v
        → Holds fingerprint round submission v
            (answer_with lib ext store env round submission context s found).0
    unfolding answer_with
    answer_with-Holds s (err x) h gone e = cc
    answer_with-Holds s (ok (memory, matches)) h gone e =
        answer_new-Holds matches (record s { memory = memory }) h gone e

    redeliver-Holds :
        (r : RecordedValidation F64) (s : SemanticEngineService F64 A) {v : Validation F64}
        → find_recorded round.id submission.message_id s.recorded ≡ some r
        → (redeliver fingerprint r s).1 ≡ ok v
        → Holds fingerprint round submission v (redeliver fingerprint r s).0
    unfolding redeliver
    redeliver-Holds r s {v} found e = (r, ground (arith, found), ground arith, ground arith)

    validate-Holds :
        (s : SemanticEngineService F64 A) {v : Validation F64}
        → 0 < s.config.max_recorded_validations
        → (validate lib ext store env round submission context s).1 ≡ ok v
        → Holds fingerprint round submission v
            (validate lib ext store env round submission context s).0
    unfolding validate prune_expired_cache answer_or_redeliver look_up_and_answer
    validate-Holds s {v} h e =
        let t = prune_expired_cache env.pruned_at s in
        go t h (find_recorded round.id submission.message_id t.recorded) refl e
      where
        go :
            (t : SemanticEngineService F64 A)
            → 0 < t.config.max_recorded_validations
            → (found : Option (RecordedValidation F64))
            → find_recorded round.id submission.message_id t.recorded ≡ found
            → (answer_or_redeliver lib ext store env round submission context t found).1 ≡ ok v
            → Holds fingerprint round submission v
                (answer_or_redeliver lib ext store env round submission context t found).0
        go t k (some r) found f = redeliver-Holds r t found f
        go t k none gone f = answer_with-Holds t _ k gone f

  -- An answer that was given is given again: with room for one recorded answer, the next
  -- delivery of the same submission, at any time and whatever the stores and the clocks do, gets
  -- the same answer, and changes neither what is recorded, nor the audit, nor the memory.
  pub validate-again :
      (env later : Env) (round : Round F64) (submission : Submission) (context : Option Text)
      (s : SemanticEngineService F64 A) {v : Validation F64}
      → 0 < s.config.max_recorded_validations
      → (validate lib ext store env round submission context s).1 ≡ ok v
      → let t = (validate lib ext store env round submission context s).0 in
        let u = validate lib ext store later round submission context t in
        (u.1 ≡ ok v) × (u.0.recorded ≡ t.recorded) × (u.0.audit ≡ t.audit) × (u.0.memory ≡ t.memory)
  validate-again env later round submission context s {v} h e =
      let (r, found, same, answer) = validate-Holds env round submission context s h e in
      held later round submission context (validate lib ext store env round submission context s).0
        r found same answer
