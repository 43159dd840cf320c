-- ===== src/Service/Tests.antt =====
-- Tests of the model of crates/semantic-engine-service, and its theorems at concrete inputs.
use semantic_engine.Common.{
  ℕ, text_of, Text, true, false, Option, none, some, List, [], ◌∷◌, map, ◌≡◌, ◌⊎◌, refl, arith,
  Text-discrete, ℕ_discrete,
}
use semantic_engine.Common.Results.{ok, err}
use semantic_engine.Core.Types.{Validation}
use semantic_engine.Core.Limits.{validation_issue}
use semantic_engine.Core.Normalize.{normalize_expression, compact, fuzzy_score}
use semantic_engine.Core.Fuzzy.{rejected, validate_fuzzy, scored}
use semantic_engine.Core.Resolve.{resolve_validation}
use semantic_engine.Core.Samples.{sample, sample_round, submitted}
use semantic_engine.MemoryStore.Types.{MemoryEntry}
use semantic_engine.Service.Types.{
  session_ended, identity_conflict, SessionEvent, SessionRecord, SessionState, active, ended,
  SessionSnapshot, SemanticEngineService,
}
use semantic_engine.Service.Sessions.{start_session, session_events}
use semantic_engine.Service.Submissions.{new_delivery, submit, resolve_session, end_session}
use semantic_engine.Service.Validate.{validate, readdress, serve}
use semantic_engine.Service.Recognition.{configured_exact, validation_with_memory, memory_context}
use semantic_engine.Service.Answers.{
  Stands, Recalls, Fresh, validation_with_memory-Recalls, serve-Fresh,
}
use semantic_engine.Service.Dedup.{validate-again}
use semantic_engine.Service.Lifecycle.{end_session-final}
use semantic_engine.Service.Starts.{start_session-again}
use semantic_engine.MemoryStore.Checks.{hex}
use semantic_engine.MemoryStore.Operations.{remember}
use semantic_engine.Service.Config.{memory_policy}
use semantic_engine.Service.Fingerprints.{request_fingerprint, memory_source_fingerprint}
use semantic_engine.Service.Records.{find_record}
use semantic_engine.Service.Memory.{remember_session_resolution}
use semantic_engine.Service.Learning.{Teaches, remember_session_resolution-Teaches}
use semantic_engine.Core.Types.{Decision, OperatorResolution}
use semantic_engine.Service.Types.{resolution_recorded}
use semantic_engine.Service.Samples.{plain, counting, small, at, idle, opening, confirming}

program : Unit {0}
unfolding start_session submit resolve_session end_session session_events validate Text-discrete
    ℕ_discrete semantic_engine.Core.Validate.validate validation_issue normalize_expression compact
    validate_fuzzy scored fuzzy_score semantic_engine.SessionStore.Operations.create_session
    semantic_engine.SessionStore.Operations.record_validation
    semantic_engine.SessionStore.Operations.record_resolution
    semantic_engine.SessionStore.Operations.end_session resolve_validation validation_with_memory
    semantic_engine.Service.Fingerprints.request_fingerprint
program = tt

abbrev started : SemanticEngineService ℕ ℕ
started = (start_session sample plain (at 5) opening idle).0

abbrev answer : Text → SemanticEngineService ℕ ℕ
answer text = (submit sample plain counting (at 6) (text_of "s1") (submitted text) started).0

abbrev learned : MemoryEntry
learned = record {
  id = text_of "01";
  context_package_sha256 = [];
  target_id = text_of "elden-ring";
  expression = text_of "er 1";
  normalized_expression = text_of "er 1";
  normalization_version = 1;
  source_resolution_sha256 = text_of "ff";
  created_at_ms = 1;
  last_used_at_ms = 1;
  expires_at_ms = 9;
  use_count = 0;
  state = semantic_engine.MemoryStore.Types.active;
  state_changed_at_ms = none;
}

abbrev cached_answer : Validation ℕ
cached_answer = rejected sample_round (submitted (text_of "elden ring")) 0

-- A service whose cache holds one answer
abbrev cached : SemanticEngineService ℕ ℕ
cached = record idle {
  cache = record { key = 1 ∷ []; inserted_at = 5; validation = cached_answer } ∷ [];
}

-- The snapshot of the session after `latest` events
abbrev shown : SessionState → Option ℕ → ℕ → SessionSnapshot
shown state ended_at_ms latest = record {
  contract_version = 2;
  session_id = text_of "s1";
  round_id = text_of "round-1";
  context_package_sha256 = none;
  state = state;
  created_at_ms = 5;
  ended_at_ms = ended_at_ms;
  latest_event_sequence = latest;
}

starts_one : (start_session sample plain (at 5) opening idle).1 ≡ ok (shown active none 1)
unfolding program
starts_one = refl

accepts :
    (submit sample plain counting
      (at 6)
      (text_of "s1")
      (submitted (text_of "elden ring!"))
      started).1
    ≡ ok (
        semantic_engine.Core.Validate.validate sample sample_round
          (submitted (text_of "elden ring!")))
unfolding program
accepts = refl

numbers :
    map
      (λ (r : SessionRecord ℕ). map (λ (e : SessionEvent ℕ). e.sequence) r.events)
      (answer (text_of "elden ring!")).sessions
    ≡ (1 ∷ 2 ∷ []) ∷ []
unfolding program
numbers = refl

-- The same message with another text is refused.
conflicts :
    (submit sample plain counting
      (at 7)
      (text_of "s1")
      (submitted (text_of "hollow knight"))
      (answer (text_of "elden ring!"))).1
    ≡ err identity_conflict
unfolding program
conflicts = refl

ends : (end_session plain (at 9) (text_of "s1") started).1 ≡ ok (shown ended (some 9) 2)
unfolding program
ends = refl

validate-again_example :
    let s : SemanticEngineService ℕ ℕ = idle in
    let t =
      (validate sample plain counting
        (at 6)
        sample_round
        (submitted (text_of "elden ring!"))
        none
        s).0 in
    let u =
      validate sample plain counting
        (at 7)
        sample_round
        (submitted (text_of "elden ring!"))
        none
        t in
    (u.1
      ≡ ok (
          semantic_engine.Core.Validate.validate sample sample_round
            (submitted (text_of "elden ring!"))))
    × (u.0.recorded ≡ t.recorded)
    × (u.0.audit ≡ t.audit)
    × (u.0.memory ≡ t.memory)
unfolding program
validate-again_example =
    validate-again sample plain counting (at 6) (at 7) sample_round
      (submitted (text_of "elden ring!")) none idle (omega arith) refl

end_session-final_example :
    let t = (end_session plain (at 9) (text_of "s1") started).0 in
    (submit sample plain counting (at 10) (text_of "s1") (submitted (text_of "elden ring")) t
      ≡ (t, err session_ended))
    × (resolve_session sample plain counting (at 10) (text_of "s1") confirming t
        ≡ (t, err session_ended))
    × (end_session plain (at 10) (text_of "s1") t ≡ (t, ok (shown ended (some 9) 2)))
end_session-final_example =
    end_session-final sample plain counting (at 9) (at 10) (text_of "s1")
      (submitted (text_of "elden ring")) confirming started ends

start_session-again_example :
    start_session sample plain (at 8) opening started ≡ (started, ok (shown active none 1))
start_session-again_example =
    start_session-again sample plain (at 5) (at 8) opening idle started starts_one refl

validation_with_memory-Recalls_example :
    let answer =
      validation_with_memory sample sample_round (submitted (text_of "er 1")) (learned ∷ []) in
    Stands sample sample_round (submitted (text_of "er 1")) (learned ∷ []) answer
    ⊎ ((answer.1 ≡ true)
        × (configured_exact sample (
              semantic_engine.Core.Validate.validate sample sample_round
                (submitted (text_of "er 1")))
            ≡ false)
        × ((semantic_engine.Core.Validate.validate sample sample_round
              (submitted (text_of "er 1"))).issue
            ≡ none)
        × Recalls sample sample_round (submitted (text_of "er 1")) (learned ∷ []) answer.0)
validation_with_memory-Recalls_example =
    validation_with_memory-Recalls sample sample_round (submitted (text_of "er 1")) (learned ∷ [])

serve-Fresh_example :
    let key : List ℕ = 1 ∷ [] in
    let text = submitted (text_of "elden ring") in
    let v = (serve (at 6) key sample_round text cached_answer cached).1 in
    (v ≡ cached_answer)
    ⊎ ((w : Validation ℕ) × Fresh 6000000 key small cached.cache w
        × (v ≡ readdress sample_round text w))
serve-Fresh_example =
    serve-Fresh (at 6) (1 ∷ []) sample_round (submitted (text_of "elden ring")) cached_answer cached

abbrev digest : Text
digest = text_of "aaaaaaaaaaaaaaaaaaaaaaaaaaaaaaaaaaaaaaaaaaaaaaaaaaaaaaaaaaaaaaaa"

-- An operator accepted the target for a message that named it otherwise.
abbrev accepted_by_hand : OperatorResolution
accepted_by_hand = record {
  round_id = text_of "round-1";
  message_id = text_of "m";
  participant_id = text_of "viewer-7";
  source_sequence = 1;
  original_decision = Decision.rejected;
  final_decision = Decision.accepted;
  target_id = some (text_of "elden-ring");
  note = [];
}

abbrev resolved : SessionRecord ℕ
resolved = record {
  definition_fingerprint = [];
  session_id = text_of "s1";
  round = sample_round;
  context_package_sha256 = some digest;
  state = active;
  created_at_ms = 5;
  ended_at_ms = none;
  latest_event_sequence = 3;
  events =
      record {
        contract_version = 2;
        session_id = text_of "s1";
        sequence = 3;
        occurred_at_ms = 8;
        kind = resolution_recorded accepted_by_hand;
      }
      ∷ [];
  deliveries =
      new_delivery [] (record cached_answer { message_id = text_of "m" }) (text_of "lands") ∷ [];
}

abbrev taught : SemanticEngineService ℕ ℕ
taught = record idle { sessions = resolved ∷ [] }

abbrev memory_after : MemoryEntry
memory_after = record {
  id = text_of "0707";
  context_package_sha256 = digest;
  target_id = text_of "elden-ring";
  expression = text_of "lands";
  normalized_expression = text_of "lands";
  normalization_version = 1;
  source_resolution_sha256 = hex (
      memory_source_fingerprint plain [] (text_of "s1") (text_of "round-1") (text_of "m")
        (text_of "elden-ring"));
  created_at_ms = 9;
  last_used_at_ms = 9;
  expires_at_ms = 1009;
  use_count = 0;
  state = semantic_engine.MemoryStore.Types.active;
  state_changed_at_ms = none;
}

abbrev after : SemanticEngineService ℕ ℕ × MemoryEntry
after = (
  record taught {
    memory = record { rows = record { row_id = 1; entry = memory_after } ∷ []; next_row_id = 2 };
  },
  memory_after,
)

learns :
    remember_session_resolution sample plain (at 9) (text_of "s1") (text_of "m") taught ≡ ok after
unfolding program remember_session_resolution remember semantic_engine.Core.Types.Decision-discrete
learns = refl

remember_session_resolution-Teaches_example :
    (r : SessionRecord ℕ) × (find_record (text_of "s1") taught.sessions ≡ some r)
    × ((context : Text) × (target : Text) × (expression : Text) × (now : ℕ) × Teaches r
          (text_of "m")
          context
          target
          expression
        × (remember sample
              (memory_policy small)
              (memory_context (at 9) 0 now)
              taught.memory
              context
              target
              expression
              (memory_source_fingerprint plain [] (text_of "s1") r.round.id (text_of "m") target)
            ≡ ok (after.0.memory, after.1))
        × (after.0 ≡ record taught { memory = after.0.memory }))
remember_session_resolution-Teaches_example =
    remember_session_resolution-Teaches sample plain (at 9) (text_of "s1") (text_of "m") taught
      learns

abbrev recalled : SemanticEngineService ℕ ℕ
recalled = record idle {
  sessions =
      record resolved {
        deliveries =
            new_delivery
              (request_fingerprint plain sample_round (submitted (text_of "er 1")) (some digest))
              (validation_with_memory sample sample_round (submitted (text_of "er 1"))
                (learned ∷ [])).0
              (text_of "er 1")
            ∷ [];
      }
      ∷ [];
}

-- The message that the session holds as accepted through memory is answered without the memory when
-- it is delivered again.
redelivers_without_memory :
    (submit sample plain counting (at 9) (text_of "s1") (submitted (text_of "er 1")) recalled).1
    ≡ ok (semantic_engine.Core.Validate.validate sample sample_round (submitted (text_of "er 1")))
unfolding program
redelivers_without_memory = refl

answers_by_memory :
    (validation_with_memory sample sample_round
      (submitted (text_of "er 1"))
      (learned ∷ [])).0.decision
    ≡ Decision.accepted
unfolding program
answers_by_memory = refl

answers_alone :
    (semantic_engine.Core.Validate.validate sample sample_round
      (submitted (text_of "er 1"))).decision
    ≡ Decision.rejected
unfolding program
answers_alone = refl
