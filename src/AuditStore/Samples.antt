-- ===== src/AuditStore/Samples.antt =====
-- An instance of what crates/semantic-engine-audit-store calls, over the sample of Core/Samples.
use semantic_engine.Common.{
  ℕ, zero, suc, Text, true, Option, none, some, List, [], ◌∷◌, map, text_of, ◌≡◌, refl, ap, ◌∙◌,
  sym,
}
use semantic_engine.Common.Fields.{write_fields, read_fields, read_fields-write_fields}
use semantic_engine.Common.Results.{Result, ok, err, ok-injective}
use semantic_engine.Common.Machine.{io_ok, millis}
use semantic_engine.Core.Types.{
  Decision, EvidenceKind, configured_expression, normalized_expression, memory_expression,
  fuzzy_expression, ambiguous_expression, ValidationIssue, invalid_policy, invalid_round,
  invalid_submission, Validation, OperatorResolution,
}
use semantic_engine.AuditStore.Types.{
  StoredValidation, StoredResolution, Externals, RoundTrips, RetentionPolicy, Tables,
}
use semantic_engine.AuditStore.Operations.{Env}

abbrev option_text : Option Text → Text
option_text none = []
option_text (some t) = 0 ∷ t

abbrev text_option : Text → Option Text
text_option [] = none
text_option (c ∷ t) = some t

text_option-option_text : (o : Option Text) → text_option (option_text o) ≡ o
text_option-option_text none = refl
text_option-option_text (some t) = refl

abbrev decision_code : Decision → ℕ
decision_code Decision.accepted = 0
decision_code Decision.rejected = 1
decision_code Decision.abstained = 2

abbrev code_decision : ℕ → Decision
code_decision zero = Decision.accepted
code_decision (suc zero) = Decision.rejected
code_decision (suc (suc n)) = Decision.abstained

code_decision-decision_code : (d : Decision) → code_decision (decision_code d) ≡ d
code_decision-decision_code Decision.accepted = refl
code_decision-decision_code Decision.rejected = refl
code_decision-decision_code Decision.abstained = refl

abbrev kind_code : EvidenceKind → ℕ
kind_code configured_expression = 0
kind_code normalized_expression = 1
kind_code memory_expression = 2
kind_code fuzzy_expression = 3
kind_code ambiguous_expression = 4

abbrev code_kind : ℕ → EvidenceKind
code_kind zero = configured_expression
code_kind (suc zero) = normalized_expression
code_kind (suc (suc zero)) = memory_expression
code_kind (suc (suc (suc zero))) = fuzzy_expression
code_kind (suc (suc (suc (suc n)))) = ambiguous_expression

code_kind-kind_code : (k : EvidenceKind) → code_kind (kind_code k) ≡ k
code_kind-kind_code configured_expression = refl
code_kind-kind_code normalized_expression = refl
code_kind-kind_code memory_expression = refl
code_kind-kind_code fuzzy_expression = refl
code_kind-kind_code ambiguous_expression = refl

kinds-codes : (ks : List EvidenceKind) → map code_kind (map kind_code ks) ≡ ks
kinds-codes [] = refl
kinds-codes (k ∷ ks) = rw (code_kind-kind_code k, kinds-codes ks) refl

abbrev issue_text : Option ValidationIssue → Text
issue_text none = []
issue_text (some invalid_policy) = 0 ∷ []
issue_text (some invalid_round) = 1 ∷ []
issue_text (some invalid_submission) = 2 ∷ []

abbrev text_issue : Text → Option ValidationIssue
text_issue [] = none
text_issue (zero ∷ t) = some invalid_policy
text_issue (suc zero ∷ t) = some invalid_round
text_issue (suc (suc n) ∷ t) = some invalid_submission

text_issue-issue_text : (o : Option ValidationIssue) → text_issue (issue_text o) ≡ o
text_issue-issue_text none = refl
text_issue-issue_text (some invalid_policy) = refl
text_issue-issue_text (some invalid_round) = refl
text_issue-issue_text (some invalid_submission) = refl

abbrev pub validation_fields : StoredValidation ℕ → List Text
validation_fields p =
    p.round_id
    ∷ p.message_id
    ∷ p.participant_id
    ∷ (p.source_sequence ∷ [])
    ∷ option_text p.context_package_sha256
    ∷ (decision_code p.decision ∷ [])
    ∷ option_text p.target_id
    ∷ (p.score ∷ [])
    ∷ map kind_code p.evidence_kinds
    ∷ issue_text p.issue
    ∷ []

abbrev first_code : Text → ℕ
first_code [] = 0
first_code (c ∷ t) = c

abbrev fields_validation : List Text → Result Text (StoredValidation ℕ)
fields_validation (r ∷ m ∷ p ∷ n ∷ c ∷ d ∷ t ∷ s ∷ k ∷ i ∷ []) = ok (record {
  round_id = r;
  message_id = m;
  participant_id = p;
  source_sequence = first_code n;
  context_package_sha256 = text_option c;
  decision = code_decision (first_code d);
  target_id = text_option t;
  score = first_code s;
  evidence_kinds = map code_kind k;
  issue = text_issue i;
})
fields_validation _ = err (text_of "not a validation")

abbrev pub resolution_fields : StoredResolution → List Text
resolution_fields p =
    (decision_code p.original_decision ∷ decision_code p.final_decision ∷ [])
    ∷ option_text p.target_id
    ∷ p.note
    ∷ []

abbrev fields_resolution : List Text → Result Text StoredResolution
fields_resolution ((a ∷ b ∷ []) ∷ t ∷ n ∷ []) = ok (record {
  original_decision = code_decision a;
  final_decision = code_decision b;
  target_id = text_option t;
  note = n;
})
fields_resolution _ = err (text_of "not a resolution")

abbrev pub plain : Externals ℕ
plain = record {
  is_finite = λ score. true;
  clock_message = text_of "second time provided was later than self";
  encode_validation = λ p. ok (write_fields (validation_fields p));
  decode_validation = λ json. fields_validation (read_fields json);
  encode_resolution = λ p. ok (write_fields (resolution_fields p));
  decode_resolution = λ json. fields_resolution (read_fields json);
}

validation-fields : (p : StoredValidation ℕ) → fields_validation (validation_fields p) ≡ ok p
validation-fields p =
    rw
      (
        text_option-option_text p.context_package_sha256,
        code_decision-decision_code p.decision,
        text_option-option_text p.target_id,
        kinds-codes p.evidence_kinds,
        text_issue-issue_text p.issue,
      )
      refl

resolution-fields : (p : StoredResolution) → fields_resolution (resolution_fields p) ≡ ok p
resolution-fields p =
    rw
      (
        code_decision-decision_code p.original_decision,
        code_decision-decision_code p.final_decision,
        text_option-option_text p.target_id,
      )
      refl

pub plain-RoundTrips : RoundTrips plain
plain-RoundTrips = record {
  reread = λ score. score;
  decode_encode_validation = λ p json finite e.
      ap (λ t. fields_validation (read_fields t)) (sym (ok-injective _ _ e))
      ∙ ap fields_validation (read_fields-write_fields (validation_fields p))
      ∙ validation-fields p;
  decode_encode_resolution = λ p json e.
      ap (λ t. fields_resolution (read_fields t)) (sym (ok-injective _ _ e))
      ∙ ap fields_resolution (read_fields-write_fields (resolution_fields p))
      ∙ resolution-fields p;
}

abbrev pub at : ℕ → Env
at now = record { io = io_ok; clock = millis now }

-- Two validations for a minute
abbrev pub two_kept : RetentionPolicy
two_kept = record { max_validations = 2; max_age_seconds = some 60 }

abbrev pub empty : Tables
empty = record { validations = []; resolutions = []; next_sequence = 1 }

-- An abstention on a message of a round
abbrev pub unsure : Text → Validation ℕ
unsure message_id = record {
  round_id = text_of "round-1";
  message_id = message_id;
  participant_id = text_of "viewer";
  source_sequence = 7;
  decision = Decision.abstained;
  target_id = none;
  score = 50;
  evidence = [];
  issue = none;
}

-- The operator accepts a target for it.
abbrev pub accepts : Text → OperatorResolution
accepts message_id = record {
  round_id = text_of "round-1";
  message_id = message_id;
  participant_id = text_of "viewer";
  source_sequence = 7;
  original_decision = Decision.abstained;
  final_decision = Decision.accepted;
  target_id = some (text_of "elden-ring");
  note = [];
}
