-- ===== src/ContextIndex/Checks.antt =====
-- The validations of crates/semantic-engine-context-index/src/lib.rs. A byte test of ASCII characters
-- is the test of every character, since no other character has ASCII bytes.
use semantic_engine.Common.{
  ℕ, Text, Bool, true, false, Option, none, some, List, [], ◌∷◌, ◌++◌, not, ◌&&◌, ◌||◌, ltb, leb,
  ◌==◌, ◌=t◌, length, all, any, is_empty, text_of, byte_len, is_control, is_ascii_digit,
  is_ascii_lowercase, is_ascii_uppercase, is_ascii_alphanumeric, is_ascii_hexdigit,
  to_ascii_lowercase, trim, starts_with, ends_with, split,
}
use semantic_engine.Common.Results.{Result, ok, ◌>>=◌, ◌>>◌, guard, ok_or}
use semantic_engine.ContextIndex.Types.{
  max_packages, max_revocations, max_revocation_tombstones, max_text_chars, max_url_chars,
  max_context_archive_bytes, ChannelError, invalid, ContextTargetMetadata, ChannelPackageReference,
  ChannelProfile, ContextRevocation, RevocationsDocument, Tombstones, RevocationState, Externals,
}

abbrev pub Checked : Type 0
Checked = Result ChannelError (Unit {0})

-- A check that fails with its message
unfoldable pub require : Bool → Text → Checked
require test message = guard test (invalid message)

unfoldable pub valid_sha256 : Text → Bool
valid_sha256 value = not (not (byte_len value == 64) || not (all is_ascii_hexdigit value))

unfoldable pub validate_sha256 : Text → Checked
unfolding valid_sha256 require
validate_sha256 value =
    require (valid_sha256 value) (text_of "SHA-256 must contain exactly 64 hexadecimal characters")

abbrev pub is_identifier_char : ℕ → Bool
is_identifier_char c =
    is_ascii_lowercase c || is_ascii_digit c || (c == b'.' || c == b'_' || c == b'-')

unfoldable pub validate_identifier : Text → Text → Checked
unfolding require
validate_identifier value label =
    require (not (is_empty value || ltb 128 (byte_len value) || not (all is_identifier_char value)))
      (label ++ text_of " is not a portable identifier")

unfoldable pub validate_text : Externals → Text → Text → ℕ → Checked
unfolding require
validate_text ext value label maximum =
    require
      (not (
        is_empty value
        || not (trim ext.is_whitespace value =t value)
        || ltb maximum (length value)
        || any is_control value))
      (label ++ text_of " is outside supported limits")

unfoldable pub validate_https_url : Externals → Text → Text → Checked
unfolding validate_text require
validate_https_url ext value label = do
  validate_text ext value label max_url_chars
  require
      (not (
        not (starts_with value (text_of "https://"))
        || any (λ c. c == 0x5c || c == 0x0d || c == 0x0a) value))
      (label ++ text_of " must be an HTTPS URL")

unfoldable pub valid_region : List Text → Bool
valid_region [] = true
valid_region (region ∷ []) = byte_len region == 2 && all is_ascii_uppercase region
valid_region (region ∷ other ∷ more) = false

unfoldable pub valid_parts : List Text → Bool
unfolding valid_region
valid_parts [] = false
valid_parts (language ∷ rest) =
    not (
      not (leb 2 (byte_len language) && leb (byte_len language) 3)
      || not (all is_ascii_lowercase language))
    && valid_region rest

unfoldable pub valid_locale : Text → Bool
unfolding valid_parts
valid_locale value = valid_parts (split b'-' value)

abbrev pub is_segment_char : ℕ → Bool
is_segment_char c = is_ascii_alphanumeric c || (c == b'.' || c == b'_' || c == b'-')

unfoldable pub valid_segment : Text → Bool
valid_segment segment =
    not (is_empty segment || ltb 128 (byte_len segment) || not (all is_segment_char segment))

abbrev pub is_parent : Text → Bool
is_parent segment = segment =t text_of ".."

abbrev pub starts_here : List Text → Bool
starts_here [] = false
starts_here (segment ∷ rest) = segment =t text_of "."

-- `Path::is_absolute` and `Path::components` where `/` separates: the root is the empty part before a
-- leading `/`, `..` is a parent, and `.` is a component in front only.
unfoldable pub is_plain_path : Text → Bool
is_plain_path value =
    not (starts_with value (text_of "/"))
    && not (starts_here (split b'/' value) || any is_parent (split b'/' value))

unfoldable pub validate_portable_relative_path : Text → Checked
unfolding require is_plain_path valid_segment
validate_portable_relative_path value = do
  require (not (ltb 1024 (byte_len value) || not (is_plain_path value)))
      (text_of "target path is not a portable relative path")
  require (all valid_segment (split b'/' value))
      (text_of "target path contains an unsupported segment")

-- `!path.ends_with(".zip") || path.contains('\\')`
unfoldable pub is_zip_path : Text → Bool
is_zip_path path = not (not (ends_with path (text_of ".zip")) || any (λ c. c == 0x5c) path)

-- The loop of `validate_channel_profile`; `seen` is `paths` so far.
unfoldable pub check_paths : List Text → List ChannelPackageReference → Checked
unfolding require is_zip_path validate_portable_relative_path
check_paths seen [] = ok tt
check_paths seen (reference ∷ references) = do
  require (not (any (λ path. path =t reference.path) seen))
      (text_of "channel package list contains a duplicate path")
  require (is_zip_path reference.path)
      (text_of "channel package path must be a portable relative ZIP path")
  validate_portable_relative_path reference.path
  check_paths (reference.path ∷ seen) references

unfoldable pub validate_channel_profile : Externals → ChannelProfile → Checked
unfolding require validate_identifier validate_text validate_https_url check_paths
validate_channel_profile ext profile = do
  require
      (profile.schema =t text_of "urn:semantic-engine:context-channel-profile:1"
        && profile.format_version == 1)
      (text_of "unsupported channel profile")
  validate_identifier profile.id (text_of "channel id")
  validate_text ext profile.name (text_of "channel name") max_text_chars
  validate_https_url ext profile.homepage (text_of "channel homepage")
  require (not (is_empty profile.packages || ltb max_packages (length profile.packages)))
      (text_of "channel package list is outside supported limits")
  check_paths [] profile.packages

-- The loops over the locales and over the kinds: each is new and passes its test.
unfoldable pub all_new : (Text → Bool) → List Text → List Text → Bool
all_new test seen [] = true
all_new test seen (value ∷ values) =
    not (any (λ other. other =t value) seen) && test value && all_new test (value ∷ seen) values

abbrev pub is_kind : Text → Bool
is_kind kind = kind =t text_of "game" || kind =t text_of "movie" || kind =t text_of "other"

unfoldable pub validate_package :
    Externals → Text → ContextTargetMetadata → ℕ → Option Text → Checked
unfolding require is_zip_path validate_portable_relative_path validate_text validate_identifier
    validate_sha256 all_new valid_locale
validate_package ext path metadata archive_length sha256 = do
  require (is_zip_path path) (text_of "context target path must be a portable relative ZIP path")
  validate_portable_relative_path path
  require
      (metadata.profile =t text_of "context-target-v1"
        && metadata.kind =t text_of "recognition-context"
        && metadata.format_version =t text_of "0.1.0")
      (text_of "unsupported Semantic Engine target profile")
  validate_text ext metadata.package_id (text_of "package id") max_text_chars
  validate_identifier metadata.package_name (text_of "package name")
  require (ext.is_version metadata.package_version)
      (text_of "package version is not Semantic Versioning 2.0.0")
  require (ext.is_license metadata.spdx_license_expression)
      (text_of "package license is not a valid SPDX expression")
  require (not (archive_length == 0 || ltb max_context_archive_bytes archive_length))
      (text_of "context archive length is outside supported limits")
  hash ← ok_or sha256 (invalid (text_of "context archive must be pinned with SHA-256"))
  validate_sha256 hash
  require
      (not (
        is_empty metadata.locales
        || ltb 32 (length metadata.locales)
        || is_empty metadata.kinds
        || ltb 3 (length metadata.kinds)
        || metadata.target_count == 0
        || ltb 50000 metadata.target_count))
      (text_of "context target metadata is outside supported limits")
  require (all_new valid_locale [] metadata.locales)
      (text_of "context locales must be unique portable BCP 47 tags")
  require (all_new is_kind [] metadata.kinds)
      (text_of "context kinds must be unique supported values")

abbrev pub is_replacement : Externals → Option Text → Bool
is_replacement ext none = true
is_replacement ext (some version) = ext.is_version version

-- The loop of `validate_revocations`; `seen` is `hashes` so far.
unfoldable pub check_entries : Externals → List Text → List ContextRevocation → Checked
unfolding require validate_sha256 validate_text
check_entries ext seen [] = ok tt
check_entries ext seen (entry ∷ entries) = do
  validate_sha256 entry.archive_sha256
  require (not (any (λ hash. hash =t to_ascii_lowercase entry.archive_sha256) seen))
      (text_of "duplicate archive revocation")
  validate_text ext entry.package_id (text_of "revoked package id") max_text_chars
  require (ext.is_version entry.package_version) (text_of "revoked package version is not SemVer")
  require (ext.is_timestamp entry.effective_at)
      (text_of "revocation effective time is not RFC 3339")
  require (is_replacement ext entry.replacement) (text_of "revocation replacement is not SemVer")
  check_entries ext (to_ascii_lowercase entry.archive_sha256 ∷ seen) entries

unfoldable pub validate_revocations : Externals → RevocationsDocument → Checked
unfolding require check_entries
validate_revocations ext document = do
  require
      (not (
        not (document.schema =t text_of "urn:semantic-engine:context-revocations:1")
        || not (document.format_version == 1)
        || document.sequence == 0
        || ltb max_revocations (length document.entries)
        || not (ext.is_timestamp document.updated_at)))
      (text_of "unsupported or invalid revocation document")
  check_entries ext [] document.entries

-- The loop of `validate_revocation_state`
unfoldable pub check_tombstones : Tombstones → Checked
unfolding require validate_sha256
check_tombstones [] = ok tt
check_tombstones ((hash, entry) ∷ rest) = do
  validate_sha256 hash
  require (hash =t to_ascii_lowercase entry.archive_sha256)
      (text_of "local revocation tombstone hash conflicts with its entry")
  check_tombstones rest

unfoldable pub validate_revocation_state : RevocationState → Checked
unfolding require validate_sha256 check_tombstones
validate_revocation_state state = do
  require
      (not (
        not (state.format_version == 1)
        || state.highest_sequence == 0
        || ltb max_revocation_tombstones (length state.tombstones)))
      (text_of "unsupported local revocation state")
  validate_sha256 state.document_sha256
  check_tombstones state.tombstones
