-- ===== src/Core/Limits.antt =====
-- The limits and `validation_issue` of crates/semantic-engine-core/src/lib.rs.
use semantic_engine.Common.{
  ℕ, Text, Bool, Option, none, some, not, ◌&&◌, if◌then◌else◌, leb, length, is_empty, all,
}
use semantic_engine.Core.Libraries.{Libraries, in_unit}
use semantic_engine.Core.Types.{
  AnswerTarget, ValidationPolicy, Round, Submission, ValidationIssue, invalid_policy, invalid_round,
  invalid_submission,
}

abbrev pub max_submission_chars : ℕ
max_submission_chars = 1000

abbrev pub max_identifier_chars : ℕ
max_identifier_chars = 256

abbrev pub max_expression_chars : ℕ
max_expression_chars = 256

abbrev pub max_aliases_per_target : ℕ
max_aliases_per_target = 64

abbrev pub max_targets_per_round : ℕ
max_targets_per_round = 256

-- `!value.is_empty() && value.chars().count() <= max`
unfoldable pub within : ℕ → Text → Bool
within max value = not (is_empty value) && leb (length value) max

unfoldable pub valid_target : AnswerTarget → Bool
unfolding within
valid_target target =
    within max_identifier_chars target.id
    && within max_expression_chars target.canonical
    && leb (length target.aliases) max_aliases_per_target
    && all (within max_expression_chars) target.aliases

unfoldable pub valid_submission : Submission → Bool
unfolding within
valid_submission submission =
    within max_identifier_chars submission.message_id
    && within max_identifier_chars submission.participant_id
    && leb (length submission.text) max_submission_chars

module _ (lib : Libraries) where
  open lib use {F64, le}

  unfoldable pub valid_policy : ValidationPolicy F64 → Bool
  unfolding in_unit
  valid_policy policy =
      in_unit lib policy.review_threshold
      && in_unit lib policy.accept_threshold
      && le policy.review_threshold policy.accept_threshold
      && in_unit lib policy.ambiguity_margin

  unfoldable pub valid_round : Round F64 → Bool
  unfolding within valid_target
  valid_round round =
      (within max_identifier_chars round.id
        && not (is_empty round.targets)
        && leb (length round.targets) max_targets_per_round)
      && all valid_target round.targets

  unfoldable pub validation_issue : Round F64 → Submission → Option ValidationIssue
  unfolding valid_policy valid_submission valid_round
  validation_issue round submission =
      if not (valid_policy round.policy)
      then some invalid_policy
      else (if not (valid_submission submission)
          then some invalid_submission
          else (if not (valid_round round) then some invalid_round else none))
