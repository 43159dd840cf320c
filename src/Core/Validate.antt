-- ===== src/Core/Validate.antt =====
-- `Validator::validate` of crates/semantic-engine-core/src/lib.rs.
pub mod Exact
pub mod Coherence
use semantic_engine.Common.{
  ℕ, Text, Bool, true, false, Option, none, some, List, [], ◌∷◌, not, ◌&&◌, ◌||◌, if◌then◌else◌,
  ◌=t◌, is_empty, find,
}
use semantic_engine.Core.Libraries.{Libraries}
use semantic_engine.Core.Types.{
  AnswerTarget, Round, Submission, Validation, EvidenceKind, configured_expression,
  normalized_expression, ambiguous_expression, Decision, ValidationIssue,
}
use semantic_engine.Core.Normalize.{normalize_expression, compact}
use semantic_engine.Core.Limits.{validation_issue}
use semantic_engine.Core.Fuzzy.{expressions, report, invalid, validate_fuzzy}

module _ (lib : Libraries) where
  open lib use {F64, zero_score, one_score}

  -- The closure of `find`: the expression is the submission, up to normalization.
  unfoldable pub matches : Text → Text → Text → Bool
  matches normalized_submission compact_submission expression =
      let normalized_expression = normalize_expression lib expression in
      not (is_empty normalized_submission)
      && (normalized_expression =t normalized_submission
          || compact lib normalized_expression =t compact_submission)

  unfoldable pub push_match :
      AnswerTarget → Option Text → List (AnswerTarget × Text) → List (AnswerTarget × Text)
  push_match target none rest = rest
  push_match target (some expression) rest = (target, expression) ∷ rest

  unfoldable pub exact_matches : Text → Text → List AnswerTarget → List (AnswerTarget × Text)
  unfolding matches expressions push_match
  exact_matches normalized compacted [] = []
  exact_matches normalized compacted (target ∷ rest) =
      push_match target (find (matches normalized compacted) (expressions target))
        (exact_matches normalized compacted rest)

  unfoldable pub exact_verdict :
      Round F64 → Submission → Text → List (AnswerTarget × Text) → Validation F64
  unfolding report
  exact_verdict round submission compacted [] = validate_fuzzy lib round submission compacted
  exact_verdict round submission compacted ((target, expression) ∷ []) =
      report round submission Decision.accepted (some target.id) one_score (
        record {
          kind =
              if expression =t submission.text
              then configured_expression
              else normalized_expression;
          matched_expression = expression;
        }
        ∷ [])
  exact_verdict round submission compacted (first ∷ second ∷ others) =
      report round submission Decision.abstained none one_score
        (record { kind = ambiguous_expression; matched_expression = submission.text } ∷ [])

  -- The body of `validate` once the preconditions hold.
  unfoldable pub validate_checked : Round F64 → Submission → Validation F64
  unfolding exact_matches exact_verdict
  validate_checked round submission =
      let normalized = normalize_expression lib submission.text in
      let compacted = compact lib normalized in
      exact_verdict round submission compacted (exact_matches normalized compacted round.targets)

  unfoldable pub validate_with : Round F64 → Submission → Option ValidationIssue → Validation F64
  unfolding invalid validate_checked
  validate_with round submission (some issue) = invalid zero_score round submission issue
  validate_with round submission none = validate_checked round submission

  unfoldable pub validate : Round F64 → Submission → Validation F64
  unfolding validate_with
  validate round submission = validate_with round submission (validation_issue lib round submission)
