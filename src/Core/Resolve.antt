-- ===== src/Core/Resolve.antt =====
-- `resolve_validation` of crates/semantic-engine-core/src/lib.rs.
pub mod Verdicts
use semantic_engine.Common.{
  ℕ, Text, Bool, true, false, Option, none, some, not, ◌||◌, if◌then◌else◌, ltb, ◌=t◌, length,
  is_empty, any,
}
use semantic_engine.Common.Results.{Result, ok, err, ◌>>=◌, ◌>>◌, guard, ok_or}
use semantic_engine.Core.Types.{
  Round, Validation, AnswerTarget, Decision, ResolutionVerdict, OperatorResolutionRequest,
  OperatorResolution, ResolutionIssue, validation_mismatch, invalid_target, invalid_note,
}

abbrev pub max_resolution_note_chars : ℕ
max_resolution_note_chars = 512

module _ {F : Type 0} where
  unfoldable pub names_target : Round F → Text → Bool
  names_target round id = any (λ (t : AnswerTarget). t.id =t id) round.targets

  -- The `match` on the verdict: the final decision and its target.
  unfoldable pub final_verdict :
      Round F → ResolutionVerdict → Option Text → Result ResolutionIssue (Decision × Option Text)
  unfolding names_target
  final_verdict round ResolutionVerdict.accepted target = do
    target_id ← ok_or target invalid_target
    guard (names_target round target_id) invalid_target
    ok (Decision.accepted, some target_id)
  final_verdict round ResolutionVerdict.rejected (some _) = err invalid_target
  final_verdict round ResolutionVerdict.rejected none = ok (Decision.rejected, none)

  -- The first early return.
  unfoldable pub mismatched : Round F → Validation F → OperatorResolutionRequest → Bool
  mismatched round validation request =
      not (validation.round_id =t round.id)
      || not (request.round_id =t round.id)
      || not (validation.message_id =t request.message_id)
      || is_empty request.message_id

  unfoldable pub resolve_validation :
      Round F → Validation F → OperatorResolutionRequest → Result ResolutionIssue OperatorResolution
  unfolding mismatched final_verdict
  resolve_validation round validation request = do
    guard (not (mismatched round validation request)) validation_mismatch
    guard (not (ltb max_resolution_note_chars (length request.note))) invalid_note
    (final_decision, target_id) ← final_verdict round request.verdict request.target_id
    ok (record {
      round_id = validation.round_id;
      message_id = validation.message_id;
      participant_id = validation.participant_id;
      source_sequence = validation.source_sequence;
      original_decision = validation.decision;
      final_decision = final_decision;
      target_id = target_id;
      note = request.note;
    })
