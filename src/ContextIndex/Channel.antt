-- ===== src/ContextIndex/Channel.antt =====
-- `inspect_offline_channel` of crates/semantic-engine-context-index/src/lib.rs, from what the TUF
-- updater has verified.
use semantic_engine.Common.{
  ℕ, Text, Bool, true, false, Option, none, some, List, [], ◌∷◌, ◌++◌, not, ◌&&◌, ltb, ◌=t◌,
  if◌then◌else◌, length, any, is_empty, text_of, text_le, to_ascii_lowercase, ◌+◌,
}
use semantic_engine.Common.Results.{Result, ok, err, ◌>>=◌, ◌>>◌, ok_or, map_err}
use semantic_engine.Common.Machine.{Io}
use semantic_engine.ContextIndex.Types.{
  channel_profile_target, revocations_target, max_packages, ChannelError, json, invalid,
  ContextTargetMetadata, ChannelPackageReference, ChannelProfile, ContextRevocation,
  RevocationsDocument, Tombstones, RevocationState, ContextChannelPackage, VerifiedContextChannel,
  StateFile, Externals,
}
use semantic_engine.ContextIndex.Checks.{
  require, validate_channel_profile, validate_package, validate_revocations,
}
use semantic_engine.ContextIndex.Revocations.{
  tombstone, prepare_revocation_state, write_revocation_state,
}

-- A target of the signed metadata: its length and `hashes.get("sha256")`
pub record TargetFile : Type 0 where
  pub length : ℕ
  pub sha256 : Option Text

pub record TimestampMetadata : Type 0 where
  pub version : ℕ
  pub expires : Text

pub record TargetsMetadata : Type 0 where
  pub version : ℕ
  pub names : List Text

-- What the updater gives after `refresh`
pub record Updater : Type 0 where
  pub root_version : ℕ
  pub timestamp : Option TimestampMetadata
  pub snapshot : Option ℕ
  pub targets : Option TargetsMetadata
  pub get_target : Text → Result ChannelError (List ℕ)
  pub get_targetinfo : Text → Result ChannelError (Option TargetFile)

unfoldable pub require_target : List Text → Text → Result ChannelError (Unit {0})
unfolding require
require_target names name =
    require (any (λ other. other =t name) names)
      (text_of "required signed target \"" ++ name ++ text_of "\" is missing")

-- Whether the package is the one that was revoked, if its archive was
abbrev pub same_identity : ContextTargetMetadata → Option ContextRevocation → Bool
same_identity metadata none = true
same_identity metadata (some revocation) =
    revocation.package_id =t metadata.package_id
    && revocation.package_version =t metadata.package_version

-- A package of the profile with its target; `seen` is `identities` so far.
unfoldable pub check_package :
    Externals
    → Tombstones
    → List (Text × Text)
    → ChannelPackageReference
    → TargetFile
    → Text
    → Result ChannelError ContextChannelPackage
unfolding require validate_package tombstone
check_package ext tombstones seen reference target sha256 = do
  validate_package ext reference.path reference.metadata target.length (some sha256)
  require
      (not (
        any
          (λ (identity : Text × Text).
            identity.0 =t reference.metadata.package_id
            && identity.1 =t reference.metadata.package_version)
          seen))
      (text_of "duplicate package identity and version")
  require (same_identity reference.metadata (tombstone (to_ascii_lowercase sha256) tombstones))
      (text_of "revocation identity conflicts with signed target metadata")
  ok (record {
    target_path = reference.path;
    archive_length = target.length;
    archive_sha256 = to_ascii_lowercase sha256;
    metadata = reference.metadata;
    revocation = tombstone (to_ascii_lowercase sha256) tombstones;
  })

-- Without a SHA-256 the validation of the package fails.
unfoldable pub check_target :
    Externals
    → Tombstones
    → List (Text × Text)
    → ChannelPackageReference
    → TargetFile
    → Option Text
    → Result ChannelError ContextChannelPackage
unfolding validate_package check_package
check_target ext tombstones seen reference target (some sha256) =
    check_package ext tombstones seen reference target sha256
check_target ext tombstones seen reference target none =
    validate_package ext reference.path reference.metadata target.length none
    >> err (invalid (text_of "context archive must be pinned with SHA-256"))

unfoldable pub check_packages :
    Externals
    → (Text → Result ChannelError (Option TargetFile))
    → Tombstones
    → List (Text × Text)
    → List ChannelPackageReference
    → Result ChannelError (List ContextChannelPackage)
unfolding check_target
check_packages ext get_targetinfo tombstones seen [] = ok []
check_packages ext get_targetinfo tombstones seen (reference ∷ references) = do
  found ← get_targetinfo reference.path
  target ←
      ok_or found
        (invalid (text_of "listed context target \"" ++ reference.path ++ text_of "\" is missing"))
  checked ← check_target ext tombstones seen reference target target.sha256
  others ←
      check_packages ext get_targetinfo tombstones
        ((reference.metadata.package_id, reference.metadata.package_version) ∷ seen) references
  ok (checked ∷ others)

-- The order of `packages.sort_by`
unfoldable pub insert_package :
    ContextChannelPackage → List ContextChannelPackage → List ContextChannelPackage
insert_package p [] = p ∷ []
insert_package p (q ∷ qs) =
    let rest = insert_package p qs in
    if text_le p.target_path q.target_path then p ∷ q ∷ qs else q ∷ rest

unfoldable pub sort_packages : List ContextChannelPackage → List ContextChannelPackage
unfolding insert_package
sort_packages [] = []
sort_packages (p ∷ ps) = insert_package p (sort_packages ps)

-- The file after the channel was accepted
unfoldable pub keep_state :
    Externals → Io → StateFile → RevocationState → Bool → Result ChannelError StateFile
unfolding write_revocation_state
keep_state ext engine file state true = write_revocation_state ext engine state
keep_state ext engine file state false = ok file

module _ (ext : Externals) (engine : Io) (updater : Updater) where
  -- From the packages of the profile on
  unfoldable pub accept_channel :
      StateFile
      → ChannelProfile
      → RevocationsDocument
      → RevocationState
      → Bool
      → Result ChannelError (StateFile × List ContextChannelPackage)
  unfolding require check_packages sort_packages keep_state
  accept_channel file channel revocations state changed = do
    packages ← check_packages ext updater.get_targetinfo state.tombstones [] channel.packages
    require (not (is_empty packages))
        (text_of "channel does not expose any Semantic Engine package")
    new_file ← keep_state ext engine file state changed
    ok (new_file, sort_packages packages)

  -- The two documents of the channel, fetched, read and validated
  unfoldable pub read_documents :
      List Text → Result ChannelError (ChannelProfile × RevocationsDocument × List ℕ)
  unfolding require_target validate_channel_profile validate_revocations
  read_documents names = do
    require_target names channel_profile_target
    require_target names revocations_target
    channel_bytes ← updater.get_target channel_profile_target
    revocation_bytes ← updater.get_target revocations_target
    channel ← map_err json (ext.decode_profile channel_bytes)
    revocations ← map_err json (ext.decode_revocations revocation_bytes)
    validate_channel_profile ext channel
    validate_revocations ext revocations
    ok (channel, revocations, revocation_bytes)

  -- The rest of the inspection, with the versions of the metadata
  unfoldable pub accept_documents :
      StateFile
      → Text
      → Text
      → TimestampMetadata
      → ℕ
      → ℕ
      → ChannelProfile × RevocationsDocument × List ℕ
      → Result ChannelError (StateFile × VerifiedContextChannel)
  unfolding prepare_revocation_state accept_channel
  accept_documents file root_sha256 now timestamp snapshot targets_version
        (channel, revocations, bytes) =
      do
        prepared ← prepare_revocation_state ext file revocations bytes
        accepted ← accept_channel file channel revocations prepared.0 prepared.1
        ok (
          accepted.0,
          record {
            channel = channel;
            root_sha256 = root_sha256;
            root_version = updater.root_version;
            timestamp_version = timestamp.version;
            snapshot_version = snapshot;
            targets_version = targets_version;
            timestamp_expires = timestamp.expires;
            verified_at = now;
            revocation_sequence = revocations.sequence;
            revocations_updated_at = revocations.updated_at;
            packages = accepted.1;
          },
        )

  unfoldable pub inspect_channel :
      StateFile → List ℕ → Text → Result ChannelError (StateFile × VerifiedContextChannel)
  unfolding require read_documents accept_documents
  inspect_channel file root_bytes now = do
    timestamp ← ok_or updater.timestamp (invalid (text_of "verified timestamp metadata is missing"))
    snapshot ← ok_or updater.snapshot (invalid (text_of "verified snapshot metadata is missing"))
    targets ← ok_or updater.targets (invalid (text_of "verified targets metadata is missing"))
    require (not (ltb (max_packages + 2) (length targets.names)))
        (text_of "channel exposes too many top-level targets")
    documents ← read_documents targets.names
    accept_documents file (ext.digest root_bytes) now timestamp snapshot targets.version documents
