-- ===== src/ContextIndex/Types.antt =====
-- The data of crates/semantic-engine-context-index/src/lib.rs. A `BTreeMap` is the list of its pairs.
use semantic_engine.Common.{ℕ, Text, text_of, Bool, Option, List}
use semantic_engine.Common.Results.{Result}

abbrev pub channel_profile_target : Text
channel_profile_target = text_of "channel-profile.json"

abbrev pub revocations_target : Text
revocations_target = text_of "revocations-v1.json"

abbrev pub max_packages : ℕ
max_packages = 10000

abbrev pub max_revocations : ℕ
max_revocations = 10000

abbrev pub max_revocation_tombstones : ℕ
max_revocation_tombstones = 50000

abbrev pub max_revocation_state_bytes : ℕ
max_revocation_state_bytes = 33554432

abbrev pub max_text_chars : ℕ
max_text_chars = 512

abbrev pub max_url_chars : ℕ
max_url_chars = 2048

abbrev pub max_context_archive_bytes : ℕ
max_context_archive_bytes = 104857600

pub data ChannelError : Type 0 where
  io tuf json invalid : Text → ChannelError

pub record ContextTargetMetadata : Type 0 where
  pub profile : Text
  pub package_id : Text
  pub package_name : Text
  pub package_version : Text
  pub format_version : Text
  pub kind : Text
  pub locales : List Text
  pub kinds : List Text
  pub target_count : ℕ
  pub spdx_license_expression : Text

pub record ChannelPackageReference : Type 0 where
  pub path : Text
  pub metadata : ContextTargetMetadata

pub record ChannelProfile : Type 0 where
  pub schema : Text
  pub format_version : ℕ
  pub id : Text
  pub name : Text
  pub homepage : Text
  pub packages : List ChannelPackageReference

pub data RevocationReason : Type 0 where
  compromised invalid_data legal withdrawn other : RevocationReason

pub record ContextRevocation : Type 0 where
  pub archive_sha256 : Text
  pub package_id : Text
  pub package_version : Text
  pub effective_at : Text
  pub reason : RevocationReason
  pub replacement : Option Text

pub record RevocationsDocument : Type 0 where
  pub schema : Text
  pub format_version : ℕ
  pub sequence : ℕ
  pub updated_at : Text
  pub entries : List ContextRevocation

abbrev pub Tombstones : Type 0
Tombstones = List (Text × ContextRevocation)

pub record RevocationState : Type 0 where
  pub format_version : ℕ
  pub highest_sequence : ℕ
  pub document_sha256 : Text
  pub tombstones : Tombstones

pub record ContextChannelPackage : Type 0 where
  pub target_path : Text
  pub archive_length : ℕ
  pub archive_sha256 : Text
  pub metadata : ContextTargetMetadata
  pub revocation : Option ContextRevocation

pub record VerifiedContextChannel : Type 0 where
  pub channel : ChannelProfile
  pub root_sha256 : Text
  pub root_version : ℕ
  pub timestamp_version : ℕ
  pub snapshot_version : ℕ
  pub targets_version : ℕ
  pub timestamp_expires : Text
  pub verified_at : Text
  pub revocation_sequence : ℕ
  pub revocations_updated_at : Text
  pub packages : List ContextChannelPackage

-- What the file of the revocation state may be: its size and then its bytes, as `fs::metadata` and
-- `fs::read` give them.
pub data StateFile : Type 0 where
  not_found irregular : StateFile
  metadata_error : Text → StateFile
  regular : (size : ℕ) → Result Text (List ℕ) → StateFile

-- What the channel calls: the characters that `str::trim` takes for white space, the parsers of
-- `semver`, `spdx` and `jiff` as tests, SHA-256 in hexadecimal, and `serde_json`, which fails with a
-- message.
pub record Externals : Type 0 where
  pub is_whitespace : ℕ → Bool
  pub is_version : Text → Bool
  pub is_license : Text → Bool
  pub is_timestamp : Text → Bool
  pub digest : List ℕ → Text
  pub encode_state : RevocationState → Result Text (List ℕ)
  pub decode_state : List ℕ → Result Text RevocationState
  pub decode_profile : List ℕ → Result Text ChannelProfile
  pub decode_revocations : List ℕ → Result Text RevocationsDocument
