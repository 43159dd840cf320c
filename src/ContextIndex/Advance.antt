-- ===== src/ContextIndex/Advance.antt =====
-- The revocation state of crates/semantic-engine-context-index/src/lib.rs from one document to the
-- next: it only moves forward, and what is written is accepted when it is read again.
use semantic_engine.Common.{
  ℕ, Text, Bool, true, false, List, [], not, ltb, ◌==◌, length, ◌≡◌, refl, subst, arith, ◌⊎◌, inl,
  inr, Bool-cases,
}
use semantic_engine.Common.Results.{
  ok, guard, map_err, >>=-eq-ok, >>-eq-ok, guard-eq-ok, map_err-eq-ok, ok-injective,
}
use semantic_engine.Common.Machine.{Io, statement}
use semantic_engine.ContextIndex.Types.{
  max_revocation_tombstones, max_revocation_state_bytes, ChannelError, RevocationsDocument,
  RevocationState, StateFile, not_found, irregular, metadata_error, regular, Externals,
}
use semantic_engine.ContextIndex.Checks.{
  require, valid_sha256, validate_sha256, check_entries, validate_revocations, check_tombstones,
  validate_revocation_state,
}
use semantic_engine.ContextIndex.Revocations.{
  bury, initial_state, load_state, advance, write_revocation_state,
}
use semantic_engine.ContextIndex.Tombstones.{check_tombstones-bury}

-- `serde_json` reads back what it wrote, and a SHA-256 is 64 hexadecimal digits.
pub record ChannelLaws (ext : Externals) : Type 0 where
  pub decode_encode :
      (state : RevocationState) (bytes : List ℕ)
      → ext.encode_state state ≡ ok bytes
      → ext.decode_state bytes ≡ ok state
  pub digest_hex : (bytes : List ℕ) → valid_sha256 (ext.digest bytes) ≡ true

-- Either the document is the one that was seen last, or it is a later one, whose entries are added.
abbrev pub Advances : RevocationState → RevocationsDocument → Text → RevocationState × Bool → Type 0
Advances state document sha256 (new, changed) =
    ((changed ≡ false)
      × (new ≡ state)
      × (document.sequence ≡ state.highest_sequence)
      × (state.document_sha256 ≡ sha256))
    ⊎ ((changed ≡ true)
        × (ltb state.highest_sequence document.sequence ≡ true)
        × (ltb max_revocation_tombstones (length (bury document.entries state.tombstones)) ≡ false)
        × (new ≡ record {
          format_version = state.format_version;
          highest_sequence = document.sequence;
          document_sha256 = sha256;
          tombstones = bury document.entries state.tombstones;
        }))

pub advance-Advances :
    (state : RevocationState) (document : RevocationsDocument) (sha256 : Text)
    {r : RevocationState × Bool}
    → advance state document sha256 ≡ ok r
    → Advances state document sha256 r
unfolding advance require
advance-Advances state document sha256 {r} e =
    elim (Bool-cases (ltb document.sequence state.highest_sequence)) [
      | inl older ↦ ground (arith, older)
      | inr fresh ↦ elim (Bool-cases (document.sequence == state.highest_sequence)) [
        | inl same ↦ inl (
          ground (arith, fresh, same),
          ground (arith, fresh, same),
          ground (arith, same),
          ground (arith, fresh, same),
        )
        | inr later ↦ inr (
          ground (arith, fresh, later),
          ground (arith, fresh, later),
          ground (arith, fresh, later),
          ground (arith, fresh, later),
        )
      ]
    ]

-- A state as it may be loaded: the initial one, or one that passes its validation
abbrev pub IsLoaded : RevocationState → Type 0
IsLoaded state = (state ≡ initial_state) ⊎ (validate_revocation_state state ≡ ok tt)

pub load_state-IsLoaded :
    (ext : Externals) (file : StateFile) {state : RevocationState}
    → load_state ext file ≡ ok state
    → IsLoaded state
unfolding load_state require
load_state-IsLoaded ext not_found {state} e = inl (ground (arith, e))
load_state-IsLoaded ext irregular {state} e = cc
load_state-IsLoaded ext (metadata_error message) {state} e = cc
load_state-IsLoaded ext (regular size contents) {state} e =
    let (small, e1) = >>-eq-ok (guard (not (ltb max_revocation_state_bytes size)) _) _ e in
    let (bytes, is_bytes, e2) = >>=-eq-ok (map_err ChannelError.io contents) _ e1 in
    let (fits, e3) =
      >>-eq-ok (guard (not (ltb max_revocation_state_bytes (length bytes))) _) _ e2 in
    let (loaded, decoded, e4) =
      >>=-eq-ok (map_err ChannelError.json (ext.decode_state bytes)) _ e3 in
    let (valid, e5) = >>-eq-ok (validate_revocation_state loaded) _ e4 in
    inr (subst (λ s. validate_revocation_state s ≡ ok tt) (ok-injective _ _ e5) valid)

loaded-version : (state : RevocationState) → IsLoaded state → (state.format_version == 1) ≡ true
unfolding validate_revocation_state require
loaded-version state (inl initial) = rw initial refl
loaded-version state (inr valid) = ground (arith, valid)

loaded-tombstones :
    (state : RevocationState) → IsLoaded state → check_tombstones state.tombstones ≡ ok tt
unfolding validate_revocation_state require check_tombstones
loaded-tombstones state (inl initial) = rw initial refl
loaded-tombstones state (inr valid) = ground (arith, valid)

checked_entries :
    (ext : Externals) (document : RevocationsDocument)
    → validate_revocations ext document ≡ ok tt
    → check_entries ext [] document.entries ≡ ok tt
unfolding validate_revocations
checked_entries ext document checked =
    (>>-eq-ok _ (check_entries ext [] document.entries) checked).1

-- The state that an accepted document leads to passes the validation of the next reading.
pub advanced-valid :
    (ext : Externals) (state : RevocationState) (document : RevocationsDocument) (sha256 : Text)
    → IsLoaded state
    → validate_revocations ext document ≡ ok tt
    → valid_sha256 sha256 ≡ true
    → ltb state.highest_sequence document.sequence ≡ true
    → ltb max_revocation_tombstones (length (bury document.entries state.tombstones)) ≡ false
    → validate_revocation_state (record {
      format_version = state.format_version;
      highest_sequence = document.sequence;
      document_sha256 = sha256;
      tombstones = bury document.entries state.tombstones;
    })
      ≡ ok tt
unfolding validate_revocation_state validate_sha256 require
advanced-valid ext state document sha256 loaded checked hex later bounded = ground (
  arith,
  loaded-version state loaded,
  hex,
  later,
  bounded,
  check_tombstones-bury ext [] document.entries state.tombstones
      (checked_entries ext document checked) (loaded-tombstones state loaded),
)

-- A file that was written is loaded as the state that was written.
pub write-load :
    (ext : Externals) (laws : ChannelLaws ext) (engine : Io) (state : RevocationState)
    {file : StateFile}
    → write_revocation_state ext engine state ≡ ok file
    → validate_revocation_state state ≡ ok tt
    → load_state ext file ≡ ok state
unfolding write_revocation_state load_state require
write-load ext laws engine state {file} written valid =
    let (bytes, encoded, e1) =
      >>=-eq-ok (map_err ChannelError.json (ext.encode_state state)) _ written in
    let (fits, e2) =
      >>-eq-ok (guard (not (ltb max_revocation_state_bytes (length bytes))) _) _ e1 in
    let (aside, e3) = >>-eq-ok (statement ChannelError.io (engine 0)) _ e2 in
    let (filled, e4) = >>-eq-ok (statement ChannelError.io (engine 1)) _ e3 in
    let (moved, e5) = >>-eq-ok (statement ChannelError.io (engine 2)) _ e4 in
    subst (λ f. load_state ext f ≡ ok state) (ok-injective _ _ e5)
      (rw (guard-eq-ok _ _ fits, laws.decode_encode state bytes (map_err-eq-ok _ _ encoded), valid)
        refl)
