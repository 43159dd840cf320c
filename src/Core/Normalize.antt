-- ===== src/Core/Normalize.antt =====
-- `normalize_expression`, `compact` and `fuzzy_score` of crates/semantic-engine-core/src/lib.rs.
pub mod Words
use semantic_engine.Common.{
  ℕ, Text, Bool, true, false, List, [], ◌∷◌, ◌++◌, not, ◌&&◌, if◌then◌else◌, ◌==◌, ◌=t◌, length,
  retain, is_empty, is_ascii_digit,
}
use semantic_engine.Core.Libraries.{Libraries}

-- What is pushed before an alphanumeric character.
unfoldable pub separator : Bool → Text → Text
separator pending_space output = if pending_space && not (is_empty output) then 0x20 ∷ [] else []

module _ (lib : Libraries) where
  open lib use {
    F64, zero_score, max_score, nfkd, is_combining_mark, to_lowercase, is_alphanumeric,
    is_whitespace, normalized_damerau_levenshtein, jaro_winkler,
  }

  unfoldable pub lower_all : Text → Text
  lower_all [] = []
  lower_all (c ∷ s) = to_lowercase c ++ lower_all s

  -- The characters that the loop sees: decomposed, without marks, in lower case.
  unfoldable pub fold_characters : Text → Text
  unfolding lower_all
  fold_characters input = lower_all (retain (λ c. not (is_combining_mark c)) (nfkd input))

  -- The `for` loop, over the characters left.
  unfoldable pub normalize_loop : Text → Text → Bool → Text
  unfolding separator
  normalize_loop [] output pending_space = output
  normalize_loop (c ∷ rest) output pending_space =
      let kept = normalize_loop rest (output ++ separator pending_space output ++ c ∷ []) false in
      let skipped = normalize_loop rest output true in if is_alphanumeric c then kept else skipped

  unfoldable pub normalize_expression : Text → Text
  unfolding fold_characters normalize_loop
  normalize_expression input = normalize_loop (fold_characters input) [] false

  unfoldable pub compact : Text → Text
  compact = retain (λ c. not (is_whitespace c))

  unfoldable pub fuzzy_score : Text → Text → F64
  fuzzy_score submission candidate =
      if not (retain is_ascii_digit submission =t retain is_ascii_digit candidate)
      then zero_score
      else (let edit_score = normalized_damerau_levenshtein submission candidate in
          if length submission == length candidate
          then max_score edit_score (jaro_winkler submission candidate)
          else edit_score)
