-- ===== src/ContextIndex/Revocations.antt =====
-- The revocation state of crates/semantic-engine-context-index/src/lib.rs: `prepare_revocation_state`
-- and `write_revocation_state`.
use semantic_engine.Common.{
  ℕ, Text, Bool, true, false, Option, none, some, List, [], ◌∷◌, not, ltb, ◌==◌, ◌=t◌,
  if◌then◌else◌, length, text_of, text_le, to_ascii_lowercase,
}
use semantic_engine.Common.Results.{Result, ok, err, ◌>>=◌, ◌>>◌, map_err}
use semantic_engine.Common.Machine.{Io, statement}
use semantic_engine.ContextIndex.Types.{
  max_revocation_tombstones, max_revocation_state_bytes, ChannelError, io, json, invalid,
  ContextRevocation, RevocationsDocument, Tombstones, RevocationState, StateFile, not_found,
  irregular, metadata_error, regular, Externals,
}
use semantic_engine.ContextIndex.Checks.{require, validate_revocation_state}

-- `BTreeMap::get`
unfoldable pub tombstone : Text → Tombstones → Option ContextRevocation
tombstone hash [] = none
tombstone hash ((key, entry) ∷ rest) =
    let others = tombstone hash rest in if key =t hash then some entry else others

unfoldable pub insert_tombstone : Text → ContextRevocation → Tombstones → Tombstones
insert_tombstone hash entry [] = (hash, entry) ∷ []
insert_tombstone hash entry ((key, value) ∷ rest) =
    let others = insert_tombstone hash entry rest in
    if text_le hash key then (hash, entry) ∷ (key, value) ∷ rest else (key, value) ∷ others

-- `entry(..).or_insert_with(..)`, by what `get` gives
unfoldable pub or_insert :
    Text → ContextRevocation → Tombstones → Option ContextRevocation → Tombstones
unfolding insert_tombstone
or_insert hash entry tombstones (some there) = tombstones
or_insert hash entry tombstones none = insert_tombstone hash entry tombstones

-- The loop over the entries of the document
unfoldable pub bury : List ContextRevocation → Tombstones → Tombstones
unfolding or_insert tombstone
bury [] tombstones = tombstones
bury (entry ∷ entries) tombstones =
    let hash = to_ascii_lowercase entry.archive_sha256 in
    bury entries (or_insert hash entry tombstones (tombstone hash tombstones))

abbrev pub initial_state : RevocationState
initial_state = record {
  format_version = 1;
  highest_sequence = 0;
  document_sha256 = [];
  tombstones = [];
}

unfoldable pub load_state : Externals → StateFile → Result ChannelError RevocationState
unfolding require validate_revocation_state
load_state ext not_found = ok initial_state
load_state ext irregular =
    err (invalid (text_of "local revocation state is not regular or is too large"))
load_state ext (metadata_error message) = err (io message)
load_state ext (regular size contents) = do
  require (not (ltb max_revocation_state_bytes size))
      (text_of "local revocation state is not regular or is too large")
  bytes ← map_err io contents
  require (not (ltb max_revocation_state_bytes (length bytes)))
      (text_of "local revocation state grew beyond its size limit")
  state ← map_err json (ext.decode_state bytes)
  validate_revocation_state state
  ok state

-- `prepare_revocation_state` from the state that was loaded
unfoldable pub advance :
    RevocationState → RevocationsDocument → Text → Result ChannelError (RevocationState × Bool)
unfolding require bury
advance state document document_sha256 =
    if ltb document.sequence state.highest_sequence
    then err (invalid (text_of "revocation sequence rollback detected"))
    else if document.sequence == state.highest_sequence
    then (require (state.document_sha256 =t document_sha256)
          (text_of "revocation sequence equivocation detected")
        >> ok (state, false))
    else (let tombstones = bury document.entries state.tombstones in
        require (not (ltb max_revocation_tombstones (length tombstones)))
          (text_of "local revocation tombstone limit exceeded")
        >> ok (
          record {
            format_version = state.format_version;
            highest_sequence = document.sequence;
            document_sha256 = document_sha256;
            tombstones = tombstones;
          },
          true,
        ))

unfoldable pub prepare_revocation_state :
    Externals
    → StateFile
    → RevocationsDocument
    → List ℕ
    → Result ChannelError (RevocationState × Bool)
unfolding load_state advance
prepare_revocation_state ext file document document_bytes = do
  state ← load_state ext file
  advance state document (ext.digest document_bytes)

-- The file is replaced as a whole: the new contents are written aside and moved into place.
unfoldable pub write_revocation_state :
    Externals → Io → RevocationState → Result ChannelError StateFile
unfolding require
write_revocation_state ext engine state = do
  bytes ← map_err json (ext.encode_state state)
  require (not (ltb max_revocation_state_bytes (length bytes)))
      (text_of "local revocation state exceeds its size limit")
  statement io (engine 0)
  statement io (engine 1)
  statement io (engine 2)
  ok (regular (length bytes) (ok bytes))
