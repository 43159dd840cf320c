-- ===== src/Core/Resolve/Verdicts.antt =====
-- When `resolve_validation` of crates/semantic-engine-core/src/lib.rs answers, and with what.
use semantic_engine.Common.{
  Text, true, false, Option, none, some, ltb, length, ◌≤◌, ◌≡◌, ◌≢◌, ◌⊎◌, [], refl, arith,
}
use semantic_engine.Common.Results.{ok}
use semantic_engine.Core.Types.{
  Round, Validation, Decision, ResolutionVerdict, OperatorResolutionRequest, OperatorResolution,
}
use semantic_engine.Core.Resolve.{
  resolve_validation, names_target, final_verdict, mismatched, max_resolution_note_chars,
}

-- The decision and the target of a resolution agree with the request, and the target is one of
-- the round.
abbrev pub Settles :
    {F : Type 0} → Round F → OperatorResolutionRequest → Decision → Option Text → Type 0
Settles round request d t =
    ((id : Text) × (request.verdict ≡ ResolutionVerdict.accepted)
      × (request.target_id ≡ some id)
      × (names_target round id ≡ true)
      × (d ≡ Decision.accepted)
      × (t ≡ some id))
    ⊎ ((request.verdict ≡ ResolutionVerdict.rejected)
        × (request.target_id ≡ none)
        × (d ≡ Decision.rejected)
        × (t ≡ none))

-- The request is about the validation, in the round.
pub record Addresses {F : Type 0} (round : Round F) (validation : Validation F)
    (request : OperatorResolutionRequest) : Type 0 where
  pub validation_round : validation.round_id ≡ round.id
  pub request_round : request.round_id ≡ round.id
  pub message : validation.message_id ≡ request.message_id
  pub named : request.message_id ≢ []
  pub note_bounded : length request.note ≤ max_resolution_note_chars

-- The fields of the resolution.
pub record Resolves {F : Type 0} (round : Round F) (validation : Validation F)
    (request : OperatorResolutionRequest) (r : OperatorResolution) : Type 0 where
  pub addresses : Addresses round validation request
  pub round_id : r.round_id ≡ validation.round_id
  pub message_id : r.message_id ≡ validation.message_id
  pub participant_id : r.participant_id ≡ validation.participant_id
  pub source_sequence : r.source_sequence ≡ validation.source_sequence
  pub original_decision : r.original_decision ≡ validation.decision
  pub note : r.note ≡ request.note
  pub settles : Settles round request r.final_decision r.target_id

module _ {F : Type 0} (round : Round F) (validation : Validation F) where
  mismatched-Addresses :
      (request : OperatorResolutionRequest)
      → mismatched round validation request ≡ false
      → ltb max_resolution_note_chars (length request.note) ≡ false
      → Addresses round validation request
  unfolding mismatched
  mismatched-Addresses request m n = record {
    validation_round = ground arith;
    request_round = ground arith;
    message = ground arith;
    named = ground arith;
    note_bounded = ground arith;
  }

  final_verdict-Settles :
      (request : OperatorResolutionRequest) (d : Decision) (t : Option Text)
      → final_verdict round request.verdict request.target_id ≡ ok (d, t)
      → Settles round request d t
  unfolding final_verdict
  final_verdict-Settles request d t h = ground arith

  Settles-final_verdict :
      (request : OperatorResolutionRequest) (d : Decision) (t : Option Text)
      → Settles round request d t
      → final_verdict round request.verdict request.target_id ≡ ok (d, t)
  unfolding final_verdict
  Settles-final_verdict request d t h = ground arith

  -- A resolution is given only for a request that addresses the validation in the round with a
  -- bounded note; it carries the identity and the decision of the validation, and it accepts a
  -- target of the round or rejects without one, as the request says.
  pub resolve_validation-Resolves :
      (request : OperatorResolutionRequest) {r : OperatorResolution}
      → resolve_validation round validation request ≡ ok r
      → Resolves round validation request r
  unfolding resolve_validation
  resolve_validation-Resolves request {r} h = record {
    addresses = mismatched-Addresses request (ground arith) (ground arith);
    round_id = ground arith;
    message_id = ground arith;
    participant_id = ground arith;
    source_sequence = ground arith;
    original_decision = ground arith;
    note = ground arith;
    settles = final_verdict-Settles request r.final_decision r.target_id (ground arith);
  }

  -- Every request that addresses the validation and settles it is resolved.
  pub resolve_validation-Settles :
      (request : OperatorResolutionRequest) (d : Decision) (t : Option Text)
      → Addresses round validation request
      → Settles round request d t
      → (r : OperatorResolution) × (resolve_validation round validation request ≡ ok r)
        × (r.final_decision ≡ d)
        × (r.target_id ≡ t)
  unfolding resolve_validation
  resolve_validation-Settles request d t a s =
      let e = Settles-final_verdict request d t s in
      (
        record {
          round_id = validation.round_id;
          message_id = validation.message_id;
          participant_id = validation.participant_id;
          source_sequence = validation.source_sequence;
          original_decision = validation.decision;
          final_decision = d;
          target_id = t;
          note = request.note;
        },
        rw e (ground arith),
        refl,
        refl,
      )
