-- ===== src/Core/Tests.antt =====
-- Tests of the model of crates/semantic-engine-core, and its theorems at concrete inputs.
use semantic_engine.Common.{
  ℕ, text_of, true, false, none, some, [], map, not, ◌&&◌, ◌=t◌, is_empty, All, Any, ◌≡◌, ◌≤◌, ◌⊎◌,
  refl, arith, inl, Text-discrete, ℕ_discrete,
}
use semantic_engine.Common.Results.{ok, err}
use semantic_engine.Core.Types.{
  Validation, Decision, ResolutionVerdict, OperatorResolutionRequest, OperatorResolution,
  invalid_target,
}
use semantic_engine.Core.Limits.{validation_issue}
use semantic_engine.Core.Normalize.{normalize_expression, compact, fuzzy_score}
use semantic_engine.Core.Normalize.Words.{well_spaced, normalize_expression-well_spaced}
use semantic_engine.Core.Fuzzy.{
  best_candidate, candidates, validate_fuzzy, scored, expressions, ranks_le,
}
use semantic_engine.Core.Fuzzy.Ranking.{Wins, validate_fuzzy-Wins, best_candidate-greatest}
use semantic_engine.Core.Validate.{matches, validate}
use semantic_engine.Core.Validate.Exact.{
  letters, matching, Decides, validate-Decides, matches-letters,
}
use semantic_engine.Core.Validate.Coherence.{IsCoherent, validate-IsCoherent}
use semantic_engine.Core.Resolve.{resolve_validation, names_target}
use semantic_engine.Core.Resolve.Verdicts.{
  Addresses, Settles, Resolves, resolve_validation-Resolves, resolve_validation-Settles,
}
use semantic_engine.Core.Samples.{
  sample, sample-ScoreLaws, sample-HasSpaces, elden_ring, sample_policy, sample_round, submitted,
}

program : Unit {0}
unfolding validate validate_fuzzy candidates validation_issue normalize_expression compact matches
    resolve_validation names_target Text-discrete ℕ_discrete best_candidate scored fuzzy_score
program = tt

normalizes : normalize_expression sample (text_of "  Elden--RING! 2") ≡ text_of "elden ring 2"
unfolding program
normalizes = refl

valid_input : validation_issue sample sample_round (submitted (text_of "elden ring!")) ≡ none
unfolding program
valid_input = refl

exact :
    (validate sample sample_round (submitted (text_of "elden ring!"))).decision ≡ Decision.accepted
unfolding program
exact = refl

near :
    (validate sample sample_round (submitted (text_of "elden rong"))).target_id
    ≡ some (text_of "elden-ring")
unfolding program
near = refl

far :
    (validate sample sample_round (submitted (text_of "hello there"))).decision ≡ Decision.rejected
unfolding program
far = refl

validate-Decides_example :
    let normalized = normalize_expression sample (text_of "elden ring!") in
    Decides sample sample_round
      (submitted (text_of "elden ring!"))
      (matching sample normalized (compact sample normalized) sample_round.targets)
      (validate sample sample_round (submitted (text_of "elden ring!")))
validate-Decides_example =
    validate-Decides sample sample_round (submitted (text_of "elden ring!")) valid_input

near_accepted :
    (validate_fuzzy sample sample_round
      (submitted (text_of "elden rong"))
      (text_of "eldenrong")).decision
    ≡ Decision.accepted
unfolding program
near_accepted = refl

validate_fuzzy-Wins_example :
    let v =
      validate_fuzzy sample sample_round (submitted (text_of "elden rong")) (text_of "eldenrong") in
    (4 ≤ 9)
    × Wins sample sample_policy
        (map (best_candidate sample (text_of "eldenrong")) sample_round.targets)
        v.target_id
        v.score
validate_fuzzy-Wins_example =
    validate_fuzzy-Wins sample sample-ScoreLaws sample_round (submitted (text_of "elden rong"))
      (text_of "eldenrong") near_accepted

validate-IsCoherent_example :
    IsCoherent sample_round
      (submitted (text_of "ER"))
      (validate sample sample_round (submitted (text_of "ER")))
    × ((validate sample sample_round (submitted (text_of "ER"))).issue
        ≡ validation_issue sample sample_round (submitted (text_of "ER")))
validate-IsCoherent_example = validate-IsCoherent sample sample_round (submitted (text_of "ER"))

matches-letters_example :
    let normalized = normalize_expression sample (text_of "e.l.d.e.n ring") in
    matches sample normalized (compact sample normalized) (text_of "Elden Ring") ≡ (
      not (is_empty normalized)
      && letters sample (text_of "Elden Ring") =t letters sample (text_of "e.l.d.e.n ring"))
matches-letters_example =
    matches-letters sample sample-HasSpaces (text_of "e.l.d.e.n ring") (text_of "Elden Ring")

normalize_expression-well_spaced_example :
    (normalize_expression sample (text_of " Elden  Ring ") ≡ [])
    ⊎ (well_spaced sample false (normalize_expression sample (text_of " Elden  Ring ")) ≡ true)
normalize_expression-well_spaced_example =
    normalize_expression-well_spaced sample sample-HasSpaces (text_of " Elden  Ring ")

best_candidate-greatest_example :
    (All
      (λ e.
        ranks_le sample
          (scored sample (text_of "er") elden_ring e)
          (best_candidate sample (text_of "er") elden_ring)
        ≡ true)
      (expressions elden_ring))
    × Any
        (λ e.
          best_candidate sample (text_of "er") elden_ring
          ≡ scored sample (text_of "er") elden_ring e)
        (expressions elden_ring)
best_candidate-greatest_example =
    best_candidate-greatest sample sample-ScoreLaws (text_of "er") elden_ring

-- A recorded abstention, and an operator who accepts it.
abbrev unsure : Validation ℕ
unsure = record {
  round_id = text_of "round-1";
  message_id = text_of "msg-1";
  participant_id = text_of "viewer-7";
  source_sequence = 1;
  decision = Decision.abstained;
  target_id = none;
  score = 50;
  evidence = [];
  issue = none;
}

abbrev accepting : OperatorResolutionRequest
accepting = record {
  round_id = text_of "round-1";
  message_id = text_of "msg-1";
  verdict = ResolutionVerdict.accepted;
  target_id = some (text_of "elden-ring");
  note = text_of "heard on stream";
}

abbrev accepted_resolution : OperatorResolution
accepted_resolution = record {
  round_id = text_of "round-1";
  message_id = text_of "msg-1";
  participant_id = text_of "viewer-7";
  source_sequence = 1;
  original_decision = Decision.abstained;
  final_decision = Decision.accepted;
  target_id = some (text_of "elden-ring");
  note = text_of "heard on stream";
}

resolved : resolve_validation sample_round unsure accepting ≡ ok accepted_resolution
unfolding program
resolved = refl

without_target :
    resolve_validation sample_round unsure (record accepting { target_id = none })
    ≡ err invalid_target
unfolding program
without_target = refl

resolve_validation-Resolves_example : Resolves sample_round unsure accepting accepted_resolution
resolve_validation-Resolves_example =
    resolve_validation-Resolves sample_round unsure accepting resolved

accepting-Addresses : Addresses sample_round unsure accepting
accepting-Addresses = record {
  validation_round = refl;
  request_round = refl;
  message = refl;
  named = λ e. cc;
  note_bounded = omega arith;
}

accepting-Settles : Settles sample_round accepting Decision.accepted (some (text_of "elden-ring"))
unfolding program
accepting-Settles = inl (text_of "elden-ring", refl, refl, refl, refl, refl)

resolve_validation-Settles_example :
    (r : OperatorResolution) × (resolve_validation sample_round unsure accepting ≡ ok r)
    × (r.final_decision ≡ Decision.accepted)
    × (r.target_id ≡ some (text_of "elden-ring"))
resolve_validation-Settles_example =
    resolve_validation-Settles sample_round unsure accepting Decision.accepted
      (some (text_of "elden-ring")) accepting-Addresses accepting-Settles
