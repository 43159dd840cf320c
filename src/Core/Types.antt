-- ===== src/Core/Types.antt =====
-- The data of crates/semantic-engine-core. `F` is the type of scores, `f64` in the source.
use semantic_engine.Common.{ℕ, Text, List, Option}

pub record AnswerTarget : Type 0 where
  pub id : Text
  pub canonical : Text
  pub aliases : List Text

pub record ValidationPolicy (F : Type 0) : Type 0 where
  pub accept_threshold : F
  pub review_threshold : F
  pub ambiguity_margin : F

pub record Round (F : Type 0) : Type 0 where
  pub id : Text
  pub targets : List AnswerTarget
  pub policy : ValidationPolicy F

pub record Submission : Type 0 where
  pub message_id : Text
  pub participant_id : Text
  pub source_sequence : ℕ
  pub text : Text

pub data Decision : Type 0 where
  accepted rejected abstained : Decision

unfoldable pub Decision-discrete : Discrete Decision
Decision-discrete = hlevel

pub data EvidenceKind : Type 0 where
  configured_expression normalized_expression memory_expression : EvidenceKind
  fuzzy_expression ambiguous_expression : EvidenceKind

pub data ValidationIssue : Type 0 where
  invalid_policy invalid_round invalid_submission : ValidationIssue

pub record Evidence : Type 0 where
  pub kind : EvidenceKind
  pub matched_expression : Text

pub record Validation (F : Type 0) : Type 0 where
  pub round_id : Text
  pub message_id : Text
  pub participant_id : Text
  pub source_sequence : ℕ
  pub decision : Decision
  pub target_id : Option Text
  pub score : F
  pub evidence : List Evidence
  pub issue : Option ValidationIssue

pub data ResolutionVerdict : Type 0 where
  accepted rejected : ResolutionVerdict

pub record OperatorResolutionRequest : Type 0 where
  pub round_id : Text
  pub message_id : Text
  pub verdict : ResolutionVerdict
  pub target_id : Option Text
  pub note : Text

pub record OperatorResolution : Type 0 where
  pub round_id : Text
  pub message_id : Text
  pub participant_id : Text
  pub source_sequence : ℕ
  pub original_decision : Decision
  pub final_decision : Decision
  pub target_id : Option Text
  pub note : Text

pub data ResolutionIssue : Type 0 where
  validation_mismatch invalid_target invalid_note : ResolutionIssue
