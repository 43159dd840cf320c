-- ===== src/ContextIndex/Paths.antt =====
-- Where the paths that crates/semantic-engine-context-index/src/lib.rs accepts lead.
use semantic_engine.Common.{
  Text, true, false, Option, none, some, List, [], ◌∷◌, ◌++◌, not, ◌||◌, ltb, ◌=t◌, if◌then◌else◌,
  any, all, split, byte_len, text_of, starts_with, ◌≡◌, refl, sym, ap, ◌∙◌, arith, inl, inr,
  Bool-cases,
}
use semantic_engine.Common.Results.{ok, guard, >>-eq-ok, guard-eq-ok}
use semantic_engine.ContextIndex.Checks.{
  require, is_parent, is_plain_path, valid_segment, validate_portable_relative_path,
}

-- One step of a walk through directories, which stand innermost first: `.` stays, `..` leaves the
-- innermost one, where there is one, and any other name enters.
unfoldable pub move : Text → List Text → Option (List Text)
move segment [] =
    if segment =t text_of "."
    then some []
    else (if is_parent segment then none else some (segment ∷ []))
move segment (here ∷ above) =
    if segment =t text_of "."
    then some (here ∷ above)
    else (if is_parent segment then some above else some (segment ∷ here ∷ above))

unfoldable pub walk : List Text → List Text → Option (List Text)
unfolding move
walk [] place = some place
walk (segment ∷ segments) place = elim (move segment place) [
  | none ↦ none
  | some next ↦ walk segments next
]

append-append {ℓ} :
    {A : Type ℓ} (xs : List A) (x : A) (ys : List A) → (xs ++ x ∷ []) ++ ys ≡ xs ++ x ∷ ys
append-append [] x ys = refl
append-append (y ∷ xs) x ys = ap (λ t. y ∷ t) (append-append xs x ys)

-- A step that is no `..` stays or enters.
move-inside :
    (segment : Text) (place : List Text)
    → is_parent segment ≡ false
    → move segment place ≡ (if segment =t text_of "." then some place else some (segment ∷ place))
unfolding move
move-inside segment [] h = ground (arith, h)
move-inside segment (here ∷ above) h = ground (arith, h)

walk-inside :
    (segments place : List Text)
    → any is_parent segments ≡ false
    → (below : List Text) × (walk segments place ≡ some (below ++ place))
unfolding walk
walk-inside [] place h = ([], refl)
walk-inside (segment ∷ segments) place h = elim (Bool-cases (segment =t text_of ".")) [
  | inl stays ↦
      let (below, is_below) = walk-inside segments place (ground (arith, h)) in
      let step : move segment place ≡ some place =
        ground (arith, stays, move-inside segment place) in
      (below, rw (step, walk) is_below)
  | inr enters ↦
      let (below, is_below) = walk-inside segments (segment ∷ place) (ground (arith, h)) in
      let step : move segment place ≡ some (segment ∷ place) =
        ground (arith, h, enters, move-inside segment place) in
      (
        below ++ segment ∷ [],
        rw (step, walk) (is_below ∙ ap (λ t. some t) (sym (append-append below segment place))),
      )
]

-- A path that is accepted cannot lead out: it is no absolute path, each of its segments is portable,
-- and the walk along them from any directory ends in that directory or below it.
pub validate_portable_relative_path-Inside :
    (value : Text) (place : List Text)
    → validate_portable_relative_path value ≡ ok tt
    → ((starts_with value (text_of "/") ≡ false)
        × (all valid_segment (split b'/' value) ≡ true)
        × ((below : List Text) × (walk (split b'/' value) place ≡ some (below ++ place))))
unfolding validate_portable_relative_path is_plain_path require
validate_portable_relative_path-Inside value place e =
    let (plain, e1) =
      >>-eq-ok (guard (not (ltb 1024 (byte_len value) || not (is_plain_path value))) _) _ e in
    let is_plain =
      guard-eq-ok (not (ltb 1024 (byte_len value) || not (is_plain_path value))) _ plain in
    let no_root : starts_with value (text_of "/") ≡ false = ground (arith, is_plain) in
    let no_parent : any is_parent (split b'/' value) ≡ false = ground (arith, is_plain) in
    (no_root, guard-eq-ok _ _ e1, walk-inside (split b'/' value) place no_parent)
