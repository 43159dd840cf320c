-- ===== src/Core/Validate/Coherence.antt =====
-- What holds of every answer of `Validator::validate` of crates/semantic-engine-core/src/lib.rs.
use semantic_engine.Common.{
  Text, true, none, some, List, [], ◌∷◌, map, ◌=t◌, All, any, length, ◌≡◌, ◌≢◌, ◌≤◌, refl, arith,
  Option-cases, inl, inr,
}
use semantic_engine.Core.Libraries.{Libraries}
use semantic_engine.Core.Types.{AnswerTarget, Round, Submission, Validation, Decision}
use semantic_engine.Core.Limits.{validation_issue}
use semantic_engine.Core.Fuzzy.{
  Candidate, scored, best_candidate, candidates, fuzzy_verdict, validate_fuzzy,
}
use semantic_engine.Core.Fuzzy.Ranking.{max_from-All, sort-All}
use semantic_engine.Core.Normalize.{normalize_expression, compact}
use semantic_engine.Core.Resolve.{names_target}
use semantic_engine.Core.Validate.{exact_matches, exact_verdict, validate}

-- The answer is about the submission; it accepts a target of the round, rejects without a target
-- and without evidence, or abstains; it has at most one piece of evidence.
pub record IsCoherent {F : Type 0} (round : Round F) (submission : Submission) (v : Validation F)
    : Type 0 where
  pub round_id : v.round_id ≡ round.id
  pub message_id : v.message_id ≡ submission.message_id
  pub participant_id : v.participant_id ≡ submission.participant_id
  pub source_sequence : v.source_sequence ≡ submission.source_sequence
  pub accepts : v.decision ≡ Decision.accepted → v.target_id ≢ none
  pub rejects : v.decision ≡ Decision.rejected → (v.target_id ≡ none) × (v.evidence ≡ [])
  pub names : (id : Text) → v.target_id ≡ some id → names_target round id ≡ true
  pub evidence : length v.evidence ≤ 1

module _ (lib : Libraries) (round : Round lib.F64) (submission : Submission) where
  open lib use {F64}

  -- The target is one of the round.
  abbrev IsListed : AnswerTarget → Type 0
  IsListed t = names_target round t.id ≡ true

  any-IsListed :
      (ts us : List AnswerTarget)
      → ((id : Text)
          → any (λ (t : AnswerTarget). t.id =t id) ts ≡ true
          → names_target round id ≡ true)
      → All IsListed ts
  any-IsListed [] us h = tt
  any-IsListed (t ∷ ts) us h =
      (h t.id (ground arith), any-IsListed ts us (λ id e. h id (ground arith)))

  targets-IsListed : All IsListed round.targets
  unfolding names_target
  targets-IsListed = any-IsListed round.targets [] (λ id e. e)

  scored-target :
      (text : Text) (t : AnswerTarget) (es : List Text)
      → All (λ (c : Candidate F64). c.target ≡ t) (map (scored lib text t) es)
  unfolding scored
  scored-target text t [] = tt
  scored-target text t (e ∷ es) = (refl, scored-target text t es)

  best_candidate-target : (text : Text) (t : AnswerTarget) → (best_candidate lib text t).target ≡ t
  unfolding best_candidate
  best_candidate-target text t =
      let h = scored-target text t (t.canonical ∷ t.aliases) in
      max_from-All lib (λ c. c.target ≡ t) (scored lib text t t.canonical)
        (map (scored lib text t) t.aliases) h.0 h.1

  best-IsListed :
      (text : Text) (ts : List AnswerTarget)
      → All IsListed ts
      → All (λ (c : Candidate F64). IsListed c.target) (map (best_candidate lib text) ts)
  best-IsListed text [] h = tt
  best-IsListed text (t ∷ ts) h = (rw best_candidate-target h.0, best-IsListed text ts h.1)

  candidates-IsListed :
      (text : Text) → All (λ (c : Candidate F64). IsListed c.target) (candidates lib round text)
  unfolding candidates
  candidates-IsListed text =
      sort-All lib (λ c. IsListed c.target) (map (best_candidate lib text) round.targets)
        (best-IsListed text round.targets targets-IsListed)

  fuzzy_verdict-IsCoherent :
      (cs : List (Candidate F64))
      → All (λ (c : Candidate F64). IsListed c.target) cs
      → IsCoherent round submission (fuzzy_verdict lib round submission cs)
  unfolding fuzzy_verdict
  fuzzy_verdict-IsCoherent [] h = ground arith
  fuzzy_verdict-IsCoherent (c ∷ cs) h = ground (arith, h.0)

  fuzzy_verdict-issue :
      (cs : List (Candidate F64)) → (fuzzy_verdict lib round submission cs).issue ≡ none
  unfolding fuzzy_verdict
  fuzzy_verdict-issue [] = refl
  fuzzy_verdict-issue (c ∷ cs) = ground arith

  validate_fuzzy-IsCoherent :
      (text : Text) → IsCoherent round submission (validate_fuzzy lib round submission text)
  unfolding validate_fuzzy
  validate_fuzzy-IsCoherent text =
      ground
        (arith, fuzzy_verdict-IsCoherent (candidates lib round text) (candidates-IsListed text))

  exact-IsListed :
      (normalized compacted : Text) (ts : List AnswerTarget)
      → All IsListed ts
      → All (λ (m : AnswerTarget × Text). IsListed m.0) (exact_matches lib normalized compacted ts)
  unfolding exact_matches
  exact-IsListed normalized compacted [] h = tt
  exact-IsListed normalized compacted (t ∷ ts) h =
      ground (arith, exact-IsListed normalized compacted ts h.1)

  exact_verdict-IsCoherent :
      (text : Text) (ms : List (AnswerTarget × Text))
      → All (λ (m : AnswerTarget × Text). IsListed m.0) ms
      → IsCoherent round submission (exact_verdict lib round submission text ms)
  unfolding exact_verdict
  exact_verdict-IsCoherent text [] h = validate_fuzzy-IsCoherent text
  exact_verdict-IsCoherent text ((t, e) ∷ []) h = ground (arith, h.0)
  exact_verdict-IsCoherent text (m ∷ n ∷ ms) h = ground arith

  exact_verdict-issue :
      (text : Text) (ms : List (AnswerTarget × Text))
      → (exact_verdict lib round submission text ms).issue ≡ none
  unfolding exact_verdict
  exact_verdict-issue text [] =
      unfold validate_fuzzy in ground (arith, fuzzy_verdict-issue (candidates lib round text))
  exact_verdict-issue text ((t, e) ∷ []) = refl
  exact_verdict-issue text (m ∷ n ∷ ms) = refl

  -- Every answer, on any input, is coherent, and its issue is the one of the preconditions.
  pub validate-IsCoherent :
      IsCoherent round submission (validate lib round submission)
      × ((validate lib round submission).issue ≡ validation_issue lib round submission)
  unfolding validate
  validate-IsCoherent =
      let normalized = normalize_expression lib submission.text in
      let text = compact lib normalized in
      let ms = exact_matches lib normalized text round.targets in
      elim (Option-cases (validation_issue lib round submission)) [
        | inl valid ↦ rw valid (
          exact_verdict-IsCoherent text ms
              (exact-IsListed normalized text round.targets targets-IsListed),
          exact_verdict-issue text ms,
        )
        | inr (i, wrong) ↦ rw wrong (ground arith, refl)
      ]
