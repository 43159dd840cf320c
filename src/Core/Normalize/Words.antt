-- ===== src/Core/Normalize/Words.antt =====
-- What `normalize_expression` and `compact` of crates/semantic-engine-core/src/lib.rs compute:
-- words with one space between them, and the alphanumeric characters alone.
use mathlib.Core.List.{append_assoc, append-nil}
use semantic_engine.Common.{
  ℕ, Text, Bool, true, false, [], ◌∷◌, ◌++◌, ◌&&◌, ◌||◌, if◌then◌else◌, ◌==◌, retain, ◌≡◌, refl,
  sym, ◌∙◌, ◌⊎◌, inl, inr, arith, Bool-cases,
}
use semantic_engine.Core.Libraries.{Libraries, HasSpaces}
use semantic_engine.Core.Normalize.{
  fold_characters, normalize_loop, separator, normalize_expression, compact,
}

module _ (lib : Libraries) where
  open lib use {is_alphanumeric, is_whitespace}

  -- Words of alphanumeric characters with one space between two of them. The flag says whether the
  -- text goes on after a word or is to begin with one.
  abbrev pub well_spaced : Bool → Text → Bool
  well_spaced after_word [] = after_word
  well_spaced after_word (c ∷ s) =
      let rest = well_spaced (is_alphanumeric c) s in
      (is_alphanumeric c || (after_word && c == 0x20)) && rest

  -- What the loop appends to an output that is not empty.
  following : Text → Bool → Text
  following [] pending = []
  following (c ∷ rest) pending =
      let kept = (if pending then 0x20 ∷ [] else []) ++ c ∷ following rest false in
      let skipped = following rest true in if is_alphanumeric c then kept else skipped

  normalize_loop-following :
      (rest : Text) (a : ℕ) (output : Text) (pending : Bool)
      → normalize_loop lib rest (a ∷ output) pending ≡ (a ∷ output) ++ following rest pending
  unfolding normalize_loop following separator
  normalize_loop-following [] a output pending = sym (append-nil (a ∷ output))
  normalize_loop-following (c ∷ rest) a output true = elim (Bool-cases (is_alphanumeric c)) [
    | inl word ↦
        rw word (
          normalize_loop-following rest a (output ++ 0x20 ∷ [] ++ c ∷ []) false ∙ simp append_assoc)
    | inr gap ↦ rw gap (normalize_loop-following rest a output true)
  ]
  normalize_loop-following (c ∷ rest) a output false = elim (Bool-cases (is_alphanumeric c)) [
    | inl word ↦ rw word (
        normalize_loop-following rest a (output ++ [] ++ c ∷ []) false
        ∙ simp (append_assoc, append-nil))
    | inr gap ↦ rw gap (normalize_loop-following rest a output true)
  ]

  -- From an empty output the loop skips to the first alphanumeric character.
  starting : Text → Text
  starting [] = []
  starting (c ∷ rest) =
      let skipped = starting rest in if is_alphanumeric c then c ∷ following rest false else skipped

  normalize_loop-starting :
      (rest : Text) (pending : Bool) → normalize_loop lib rest [] pending ≡ starting rest
  unfolding normalize_loop starting separator
  normalize_loop-starting [] pending = refl
  normalize_loop-starting (c ∷ rest) pending = elim (Bool-cases (is_alphanumeric c)) [
    | inl word ↦ ground (arith, normalize_loop-following rest c [] false)
    | inr gap ↦ rw gap (normalize_loop-starting rest true)
  ]

  module _ (spaces : HasSpaces lib) where
    space_not_alphanumeric : is_alphanumeric 0x20 ≡ false
    space_not_alphanumeric = elim (Bool-cases (is_alphanumeric 0x20)) [
      | inl e ↦ cc (spaces.alphanumeric_solid 0x20 e, spaces.space_white)
      | inr e ↦ e
    ]

    following-well_spaced :
        (rest : Text) (pending : Bool) → well_spaced true (following rest pending) ≡ true
    unfolding following
    following-well_spaced [] pending = refl
    following-well_spaced (c ∷ rest) pending = ground (
      arith,
      space_not_alphanumeric,
      following-well_spaced rest false,
      following-well_spaced rest true,
    )

    starting-well_spaced :
        (rest : Text) → (starting rest ≡ []) ⊎ (well_spaced false (starting rest) ≡ true)
    unfolding starting
    starting-well_spaced [] = inl refl
    starting-well_spaced (c ∷ rest) =
        ground (arith, following-well_spaced rest false, starting-well_spaced rest)

    -- A normalized expression is empty, or consists of words of alphanumeric characters with
    -- exactly one U+0020 between two of them and none at its ends.
    pub normalize_expression-well_spaced :
        (input : Text)
        → (normalize_expression lib input ≡ [])
          ⊎ (well_spaced false (normalize_expression lib input) ≡ true)
    unfolding normalize_expression
    normalize_expression-well_spaced input =
        rw normalize_loop-starting (starting-well_spaced (fold_characters lib input))

    compact-following :
        (rest : Text) (pending : Bool)
        → compact lib (following rest pending) ≡ retain is_alphanumeric rest
    unfolding following compact
    compact-following [] pending = refl
    compact-following (c ∷ rest) pending = ground (
      arith,
      spaces.space_white,
      spaces.alphanumeric_solid c,
      compact-following rest false,
      compact-following rest true,
    )

    compact-starting : (rest : Text) → compact lib (starting rest) ≡ retain is_alphanumeric rest
    unfolding starting compact
    compact-starting [] = refl
    compact-starting (c ∷ rest) =
        ground
          (arith, spaces.alphanumeric_solid c, compact-following rest false, compact-starting rest)

    -- The compact form of a normalized expression is the sequence of its alphanumeric characters,
    -- decomposed, without marks and in lower case.
    pub compact-normalize_expression :
        (input : Text)
        → compact lib (normalize_expression lib input)
          ≡ retain is_alphanumeric (fold_characters lib input)
    unfolding normalize_expression
    compact-normalize_expression input =
        rw normalize_loop-starting (compact-starting (fold_characters lib input))
