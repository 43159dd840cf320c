-- ===== src/ContextIndex/Tombstones.antt =====
-- The tombstones of crates/semantic-engine-context-index/src/lib.rs: what the loop over a document
-- does to them.
use semantic_engine.Common.{
  Text, true, none, some, List, [], ◌∷◌, not, ◌=t◌, if◌then◌else◌, all, any, byte_len,
  is_ascii_hexdigit, to_ascii_lowercase, text_of, ◌≡◌, refl, arith, inl, inr, Option-cases, All,
}
use semantic_engine.Common.Results.{ok, guard, >>-eq-ok, guard-eq-ok}
use semantic_engine.ContextIndex.Types.{max_text_chars, ContextRevocation, Tombstones, Externals}
use semantic_engine.ContextIndex.Checks.{
  require, valid_sha256, validate_sha256, check_entries, check_tombstones, validate_text,
  is_replacement,
}
use semantic_engine.ContextIndex.Revocations.{tombstone, insert_tombstone, or_insert, bury}

tombstone-insert :
    (hash other : Text) (entry : ContextRevocation) (ts : Tombstones)
    → tombstone hash ts ≡ none
    → tombstone other (insert_tombstone hash entry ts)
      ≡ (if hash =t other then some entry else tombstone other ts)
unfolding tombstone insert_tombstone
tombstone-insert hash other entry [] gone = refl
tombstone-insert hash other entry ((key, value) ∷ rest) gone =
    ground (arith, tombstone-insert hash other entry rest)

-- A tombstone that stands is never replaced.
pub or_insert-keeps :
    (hash other : Text) (entry : ContextRevocation) (ts : Tombstones) {r : ContextRevocation}
    → tombstone other ts ≡ some r
    → tombstone other (or_insert hash entry ts (tombstone hash ts)) ≡ some r
unfolding or_insert
or_insert-keeps hash other entry ts {r} there = elim (Option-cases (tombstone hash ts)) [
  | inr (old, found) ↦ rw (found, or_insert) there
  | inl gone ↦ ground (arith, gone, tombstone-insert hash other entry ts gone)
]

or_insert-inserts :
    (hash : Text) (entry : ContextRevocation) (ts : Tombstones)
    → (r : ContextRevocation) × (tombstone hash (or_insert hash entry ts (tombstone hash ts))
        ≡ some r)
unfolding or_insert
or_insert-inserts hash entry ts = elim (Option-cases (tombstone hash ts)) [
  | inr (old, found) ↦ (old, rw (found, or_insert) found)
  | inl gone ↦ (entry, ground (arith, gone, tombstone-insert hash hash entry ts gone))
]

pub bury-keeps :
    (entries : List ContextRevocation) (hash : Text) (ts : Tombstones) {r : ContextRevocation}
    → tombstone hash ts ≡ some r
    → tombstone hash (bury entries ts) ≡ some r
unfolding bury
bury-keeps [] hash ts there = there
bury-keeps (entry ∷ entries) hash ts {r} there =
    bury-keeps entries hash _
      (or_insert-keeps (to_ascii_lowercase entry.archive_sha256) hash entry ts there)

-- There is a tombstone of the archive of the entry.
abbrev pub IsBuried : Tombstones → ContextRevocation → Type 0
IsBuried ts entry =
    (r : ContextRevocation) × (tombstone (to_ascii_lowercase entry.archive_sha256) ts ≡ some r)

-- Every entry of the document has a tombstone afterwards.
pub bury-buries :
    (entries : List ContextRevocation) (ts : Tombstones) → All (IsBuried (bury entries ts)) entries
unfolding bury
bury-buries [] ts = tt
bury-buries (entry ∷ entries) ts =
    let hash = to_ascii_lowercase entry.archive_sha256 in
    let (r, there) = or_insert-inserts hash entry ts in
    ((r, bury-keeps entries hash _ there), bury-buries entries _)

byte_len-to_ascii_lowercase : (s : Text) → byte_len (to_ascii_lowercase s) ≡ byte_len s
byte_len-to_ascii_lowercase [] = refl
byte_len-to_ascii_lowercase (c ∷ s) = ground (arith, byte_len-to_ascii_lowercase s)

hexdigits-to_ascii_lowercase :
    (s : Text)
    → all is_ascii_hexdigit s ≡ true
    → all is_ascii_hexdigit (to_ascii_lowercase s) ≡ true
hexdigits-to_ascii_lowercase [] h = refl
hexdigits-to_ascii_lowercase (c ∷ s) h = ground (arith, hexdigits-to_ascii_lowercase s)

valid_sha256-to_ascii_lowercase :
    (s : Text) → valid_sha256 s ≡ true → valid_sha256 (to_ascii_lowercase s) ≡ true
unfolding valid_sha256
valid_sha256-to_ascii_lowercase s h =
    ground (arith, byte_len-to_ascii_lowercase s, hexdigits-to_ascii_lowercase s)

check_tombstones-insert :
    (entry : ContextRevocation) (ts : Tombstones)
    → valid_sha256 entry.archive_sha256 ≡ true
    → check_tombstones ts ≡ ok tt
    → check_tombstones (insert_tombstone (to_ascii_lowercase entry.archive_sha256) entry ts) ≡ ok tt
unfolding check_tombstones insert_tombstone validate_sha256 require
check_tombstones-insert entry [] valid h =
    ground (arith, valid_sha256-to_ascii_lowercase entry.archive_sha256 valid)
check_tombstones-insert entry ((key, value) ∷ rest) valid h = ground (
  arith,
  valid_sha256-to_ascii_lowercase entry.archive_sha256 valid,
  check_tombstones-insert entry rest valid,
)

-- Checked tombstones stay so when the entries of a checked document are added.
pub check_tombstones-bury :
    (ext : Externals) (seen : List Text) (entries : List ContextRevocation) (ts : Tombstones)
    → check_entries ext seen entries ≡ ok tt
    → check_tombstones ts ≡ ok tt
    → check_tombstones (bury entries ts) ≡ ok tt
unfolding bury check_entries validate_sha256 require or_insert
check_tombstones-bury ext seen [] ts checked h = h
check_tombstones-bury ext seen (entry ∷ entries) ts checked h =
    let hash = to_ascii_lowercase entry.archive_sha256 in
    let (first, e1) = >>-eq-ok (guard (valid_sha256 entry.archive_sha256) _) _ checked in
    let (new, e2) =
      >>-eq-ok
        (require (not (any (λ other. other =t hash) seen)) (text_of "duplicate archive revocation"))
        _ e1 in
    let (named, e3) =
      >>-eq-ok (validate_text ext entry.package_id (text_of "revoked package id") max_text_chars) _
        e2 in
    let (versioned, e4) =
      >>-eq-ok
        (require (ext.is_version entry.package_version)
          (text_of "revoked package version is not SemVer"))
        _ e3 in
    let (timed, e5) =
      >>-eq-ok
        (require (ext.is_timestamp entry.effective_at)
          (text_of "revocation effective time is not RFC 3339"))
        _ e4 in
    let (replaced, e6) =
      >>-eq-ok
        (require (is_replacement ext entry.replacement)
          (text_of "revocation replacement is not SemVer"))
        _ e5 in
    check_tombstones-bury ext (hash ∷ seen) entries _ e6 (elim (Option-cases (tombstone hash ts)) [
      | inr (old, found) ↦ rw (found, or_insert) h
      | inl gone ↦ rw (gone, or_insert) (check_tombstones-insert entry ts (guard-eq-ok _ _ first) h)
    ])
