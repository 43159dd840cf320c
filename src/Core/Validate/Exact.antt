-- ===== src/Core/Validate/Exact.antt =====
-- How the exact matches of `Validator::validate` of crates/semantic-engine-core/src/lib.rs decide.
use semantic_engine.Common.{
  Text, Bool, true, false, none, some, List, [], ◌∷◌, map, not, ◌&&◌, ◌=t◌, any, find, retain,
  is_empty, ◌≡◌, refl, ap, arith, Option-cases, inl, inr,
}
use semantic_engine.Core.Libraries.{Libraries, HasSpaces}
use semantic_engine.Core.Types.{AnswerTarget, Round, Submission, Validation, Decision}
use semantic_engine.Core.Normalize.{normalize_expression, compact, fold_characters}
use semantic_engine.Core.Normalize.Words.{compact-normalize_expression}
use semantic_engine.Core.Limits.{validation_issue}
use semantic_engine.Core.Fuzzy.{expressions, validate_fuzzy}
use semantic_engine.Core.Validate.{matches, exact_matches, exact_verdict, validate}

module _ (lib : Libraries) where
  open lib use {F64, one_score, is_alphanumeric}

  -- The alphanumeric characters of a text, decomposed, without marks and in lower case.
  abbrev pub letters : Text → Text
  letters text = retain is_alphanumeric (fold_characters lib text)

  any-find : {A : Type 0} (p : A → Bool) (xs : List A) → find p xs ≡ none → any p xs ≡ false
  any-find p [] h = refl
  any-find p (x ∷ xs) h = ground (arith, any-find p xs)

  find-any :
      {A : Type 0} (p : A → Bool) (xs : List A) {x : A} → find p xs ≡ some x → any p xs ≡ true
  find-any p [] h = cc
  find-any p (y ∷ xs) {x} h = ground (arith, find-any p xs {x = x})

  -- The targets that have a matching expression.
  abbrev pub matching : Text → Text → List AnswerTarget → List AnswerTarget
  matching normalized compacted = retain λ t. any (matches lib normalized compacted) (expressions t)

  matching-exact_matches :
      (normalized compacted : Text) (ts : List AnswerTarget)
      → matching normalized compacted ts
        ≡ map (λ m. m.0) (exact_matches lib normalized compacted ts)
  unfolding exact_matches
  matching-exact_matches normalized compacted [] = refl
  matching-exact_matches normalized compacted (t ∷ ts) =
      let p = matches lib normalized compacted in
      elim (Option-cases (find p (expressions t))) [
        | inl miss ↦
            rw (any-find p (expressions t) miss, miss)
              (matching-exact_matches normalized compacted ts)
        | inr (e, hit) ↦
            rw (find-any p (expressions t) hit, hit)
              (ap (◌∷◌ t) (matching-exact_matches normalized compacted ts))
      ]

  -- One matching target is accepted with full score; several are left to the operator, without a
  -- target; with none the fuzzy ranking decides.
  abbrev pub Decides : Round F64 → Submission → List AnswerTarget → Validation F64 → Type 0
  Decides round submission [] v =
      v
      ≡ validate_fuzzy lib round submission (compact lib (normalize_expression lib submission.text))
  Decides round submission (t ∷ []) v =
      (v.decision ≡ Decision.accepted) × (v.target_id ≡ some t.id) × (v.score ≡ one_score)
  Decides round submission (t ∷ u ∷ ts) v =
      (v.decision ≡ Decision.abstained) × (v.target_id ≡ none) × (v.score ≡ one_score)

  exact_verdict-Decides :
      (round : Round F64) (submission : Submission) (ms : List (AnswerTarget × Text))
      → Decides round submission (map (λ m. m.0) ms) (
          exact_verdict lib round submission
            (compact lib (normalize_expression lib submission.text))
            ms)
  unfolding exact_verdict
  exact_verdict-Decides round submission [] = refl
  exact_verdict-Decides round submission ((t, e) ∷ []) = (refl, refl, refl)
  exact_verdict-Decides round submission (m ∷ n ∷ ms) = (refl, refl, refl)

  -- On valid input the targets with a matching expression decide: exactly one is accepted, several
  -- are left to the operator, and with none the fuzzy ranking is asked.
  pub validate-Decides :
      (round : Round F64) (submission : Submission)
      → validation_issue lib round submission ≡ none
      → let normalized = normalize_expression lib submission.text in
        Decides round submission
          (matching normalized (compact lib normalized) round.targets)
          (validate lib round submission)
  unfolding validate
  validate-Decides round submission valid =
      let normalized = normalize_expression lib submission.text in
      rw (valid, matching-exact_matches normalized (compact lib normalized) round.targets)
        (exact_verdict-Decides round submission
          (exact_matches lib normalized (compact lib normalized) round.targets))

  -- Whether an expression matches depends only on the letters and digits of the two texts: accents,
  -- case, punctuation and spacing do not count, and a submission without any matches nothing.
  pub matches-letters :
      HasSpaces lib
      → (text expression : Text)
      → let normalized = normalize_expression lib text in
        matches lib normalized (compact lib normalized) expression
        ≡ (not (is_empty normalized) && letters expression =t letters text)
  unfolding matches
  matches-letters spaces text expression = ground (
    arith,
    compact-normalize_expression lib spaces text,
    compact-normalize_expression lib spaces expression,
    ap (compact lib) {x = normalize_expression lib expression},
  )
