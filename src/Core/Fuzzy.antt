-- ===== src/Core/Fuzzy.antt =====
-- `Validator::validate_fuzzy` of crates/semantic-engine-core/src/lib.rs.
pub mod Ranking
use semantic_engine.Common.{
  ℕ, Text, Bool, true, false, Option, none, some, List, [], ◌∷◌, map, not, ◌&&◌, if◌then◌else◌, ltb,
  length,
}
use semantic_engine.Core.Libraries.{Libraries}
use semantic_engine.Core.Types.{
  AnswerTarget, ValidationPolicy, Round, Submission, Validation, Evidence, EvidenceKind,
  fuzzy_expression, ambiguous_expression, Decision, ValidationIssue,
}
use semantic_engine.Core.Normalize.{normalize_expression, compact, fuzzy_score}

-- `once(&target.canonical).chain(target.aliases.iter())`
unfoldable pub expressions : AnswerTarget → List Text
expressions target = target.canonical ∷ target.aliases

-- A `Validation` of the submission, in the round.
unfoldable pub report :
    {F : Type 0} → Round F → Submission → Decision → Option Text → F → List Evidence → Validation F
report round submission decision target score evidence = record {
  round_id = round.id;
  message_id = submission.message_id;
  participant_id = submission.participant_id;
  source_sequence = submission.source_sequence;
  decision = decision;
  target_id = target;
  score = score;
  evidence = evidence;
  issue = none;
}

unfoldable pub rejected : {F : Type 0} → Round F → Submission → F → Validation F
unfolding report
rejected round submission score = report round submission Decision.rejected none score []

unfoldable pub invalid : {F : Type 0} → F → Round F → Submission → ValidationIssue → Validation F
unfolding rejected
invalid zero_score round submission issue = record (rejected round submission zero_score) {
  issue = some issue;
}

pub record Candidate (F : Type 0) : Type 0 where
  pub target : AnswerTarget
  pub expression : Text
  pub score : F

module _ (lib : Libraries) where
  open lib use {F64, zero_score, le, lt, sub, total_le}

  -- `left.score.total_cmp(&right.score)` is not `Greater`.
  abbrev pub ranks_le : Candidate F64 → Candidate F64 → Bool
  ranks_le left right = total_le left.score right.score

  -- `max_by`: the last of the greatest.
  unfoldable pub max_from : Candidate F64 → List (Candidate F64) → Candidate F64
  max_from best [] = best
  max_from best (c ∷ rest) = max_from (if ranks_le best c then c else best) rest

  unfoldable pub scored : Text → AnswerTarget → Text → Candidate F64
  scored submission target expression = record {
    target = target;
    expression = expression;
    score = fuzzy_score lib submission (compact lib (normalize_expression lib expression));
  }

  unfoldable pub best_candidate : Text → AnswerTarget → Candidate F64
  unfolding max_from
  best_candidate submission target =
      max_from (scored submission target target.canonical)
        (map (scored submission target) target.aliases)

  -- The stable `sort_by`, the greatest score first.
  unfoldable pub insert : Candidate F64 → List (Candidate F64) → List (Candidate F64)
  insert c [] = c ∷ []
  insert c (d ∷ rest) = if ranks_le d c then c ∷ d ∷ rest else d ∷ insert c rest

  unfoldable pub sort : List (Candidate F64) → List (Candidate F64)
  unfolding insert
  sort [] = []
  sort (c ∷ rest) = insert c (sort rest)

  unfoldable pub candidates : Round F64 → Text → List (Candidate F64)
  unfolding sort best_candidate
  candidates round submission = sort (map (best_candidate submission) round.targets)

  unfoldable pub close_runner_up : ValidationPolicy F64 → F64 → List (Candidate F64) → Bool
  close_runner_up policy score [] = false
  close_runner_up policy score (runner_up ∷ _) =
      le policy.review_threshold runner_up.score
      && lt (sub score runner_up.score) policy.ambiguity_margin

  unfoldable pub fuzzy_decision : ValidationPolicy F64 → F64 → Bool → Decision
  fuzzy_decision policy score ambiguous =
      if le policy.accept_threshold score && not ambiguous
      then Decision.accepted
      else (if le policy.review_threshold score then Decision.abstained else Decision.rejected)

  unfoldable pub fuzzy_report :
      Round F64 → Submission → Candidate F64 → Bool → Decision → Validation F64
  unfolding rejected report
  fuzzy_report round submission top ambiguous Decision.rejected =
      rejected round submission top.score
  fuzzy_report round submission top ambiguous decision =
      report round submission decision (if ambiguous then none else some top.target.id) top.score (
        record {
          kind = if ambiguous then ambiguous_expression else fuzzy_expression;
          matched_expression = top.expression;
        }
        ∷ [])

  unfoldable pub fuzzy_verdict : Round F64 → Submission → List (Candidate F64) → Validation F64
  unfolding rejected close_runner_up fuzzy_decision fuzzy_report
  fuzzy_verdict round submission [] = rejected round submission zero_score
  fuzzy_verdict round submission (top ∷ others) =
      let ambiguous : Bool = close_runner_up round.policy top.score others in
      fuzzy_report round submission top ambiguous (fuzzy_decision round.policy top.score ambiguous)

  unfoldable pub validate_fuzzy : Round F64 → Submission → Text → Validation F64
  unfolding rejected candidates fuzzy_verdict
  validate_fuzzy round submission compact_submission =
      if ltb (length compact_submission) 4
      then rejected round submission zero_score
      else fuzzy_verdict round submission (candidates round compact_submission)
