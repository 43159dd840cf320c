-- ===== src/Service/Recognition.antt =====
-- What the recognition memory adds to an answer: `memory_matches` and `validation_with_memory` of
-- crates/semantic-engine-service/src/lib.rs.
use semantic_engine.Common.{
  ℕ, Text, Bool, true, false, Option, none, some, List, [], ◌∷◌, map, not, ◌||◌, ◌&&◌, ltb, ◌=t◌,
  if◌then◌else◌, length, any, is_empty, is_control,
}
use semantic_engine.Common.Results.{Result, ok, map_err}
use semantic_engine.Core.Libraries.{Libraries}
use semantic_engine.Core.Types.{
  AnswerTarget, Round, Submission, Decision, EvidenceKind, configured_expression,
  normalized_expression, memory_expression, fuzzy_expression, ambiguous_expression, Evidence,
  Validation,
}
use semantic_engine.Core.Limits.{max_expression_chars}
use semantic_engine.Core.Validate.{validate}
use semantic_engine.SessionStore.Checks.{is_some}
use semantic_engine.MemoryStore.Types.{MemoryEntry, Table}
use semantic_engine.MemoryStore.Operations.{Context, lookup}
use semantic_engine.Service.Types.{ServiceError}
use semantic_engine.Service.Config.{from_memory_error}
use semantic_engine.Service.Externals.{Env}

abbrev pub is_exact : EvidenceKind → Bool
is_exact configured_expression = true
is_exact normalized_expression = true
is_exact ambiguous_expression = true
is_exact memory_expression = false
is_exact fuzzy_expression = false

abbrev pub memory_context : Env → ℕ → ℕ → Context
memory_context env call now = record {
  io = env.memory_io call;
  now_ms = now;
  entropy = env.entropy;
}

module _ (lib : Libraries) where
  open lib use {F64, one_score, eq}

  -- The answer that the matches in memory give; the first of them is `first`.
  unfoldable pub memory_answer :
      Round F64 → Submission → MemoryEntry → List MemoryEntry → Validation F64
  memory_answer round submission first rest =
      let ambiguous : Bool =
        any (λ (e : MemoryEntry). not (e.target_id =t first.target_id)) (first ∷ rest) in
      record {
        round_id = round.id;
        message_id = submission.message_id;
        participant_id = submission.participant_id;
        source_sequence = submission.source_sequence;
        decision = if ambiguous then Decision.abstained else Decision.accepted;
        target_id = if ambiguous then none else some first.target_id;
        score = one_score;
        evidence =
            record {
              kind = if ambiguous then ambiguous_expression else memory_expression;
              matched_expression = first.expression;
            }
            ∷ [];
        issue = none;
      }

  -- `configured_exact`
  unfoldable pub configured_exact : Validation F64 → Bool
  configured_exact configured =
      any (λ (e : Evidence). is_exact e.kind && eq configured.score one_score) configured.evidence

  unfoldable pub validation_with_memory :
      Round F64 → Submission → List MemoryEntry → Validation F64 × Bool
  unfolding memory_answer configured_exact
  validation_with_memory round submission [] = (validate lib round submission, false)
  validation_with_memory round submission (first ∷ rest) =
      let configured = validate lib round submission in
      if configured_exact configured || is_some configured.issue
      then (configured, false)
      else (memory_answer round submission first rest, true)

  unfoldable pub memory_matches :
      Env
      → ℕ
      → Table
      → Round F64
      → Text
      → Option Text
      → Result ServiceError (Table × List MemoryEntry)
  unfolding from_memory_error
  memory_matches env now memory round expression none = ok (memory, [])
  memory_matches env now memory round expression (some context) =
      if is_empty expression
        || ltb max_expression_chars (length expression)
        || any is_control expression
      then ok (memory, [])
      else map_err from_memory_error (
          lookup lib (memory_context env 0 now) memory context expression
            (map (λ (t : AnswerTarget). t.id) round.targets))
