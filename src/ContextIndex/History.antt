-- ===== src/ContextIndex/History.antt =====
-- Sequences of inspections in crates/semantic-engine-context-index/src/lib.rs.
use semantic_engine.Common.{
  ℕ, Text, Bool, some, List, [], not, ltb, length, is_empty, text_of, ◌≡◌, refl, sym, ◌∙◌, ap,
  subst, inl, inr, ◌+◌,
}
use semantic_engine.Common.Results.{
  ok, ok_or, map_err, >>=-eq-ok, >>-eq-ok, map_err-eq-ok, ok-injective,
}
use semantic_engine.Common.Machine.{Io}
use semantic_engine.ContextIndex.Types.{
  channel_profile_target, revocations_target, max_packages, ChannelError, invalid, ChannelProfile,
  ContextRevocation, RevocationsDocument, RevocationState, ContextChannelPackage,
  VerifiedContextChannel, StateFile, Externals,
}
use semantic_engine.ContextIndex.Checks.{
  require, validate_channel_profile, validate_revocations, validate_revocation_state,
}
use semantic_engine.ContextIndex.Revocations.{
  tombstone, load_state, advance, prepare_revocation_state,
}
use semantic_engine.ContextIndex.Channel.{
  TimestampMetadata, Updater, require_target, check_packages, sort_packages, keep_state,
  accept_channel, read_documents, accept_documents, inspect_channel,
}
use semantic_engine.ContextIndex.Tombstones.{bury-keeps}
use semantic_engine.ContextIndex.Advance.{
  ChannelLaws, advance-Advances, load_state-IsLoaded, advanced-valid, write-load,
}

-- What an accepted inspection did: the document that was read, the state that was loaded, and the one
-- that was kept.
pub record Inspection (ext : Externals) (engine : Io) (updater : Updater)
    (file new_file : StateFile) (channel : VerifiedContextChannel) : Type 0 where
  pub document : RevocationsDocument
  pub bytes : List ℕ
  pub state : RevocationState
  pub prepared : RevocationState × Bool
  pub fetched : updater.get_target revocations_target ≡ ok bytes
  pub decoded : ext.decode_revocations bytes ≡ ok document
  pub checked : validate_revocations ext document ≡ ok tt
  pub loaded : load_state ext file ≡ ok state
  pub advances : advance state document (ext.digest bytes) ≡ ok prepared
  pub packages : List ContextChannelPackage
  pub listed :
      check_packages ext updater.get_targetinfo prepared.0.tombstones [] channel.channel.packages
      ≡ ok packages
  pub kept : keep_state ext engine file prepared.0 prepared.1 ≡ ok new_file
  pub shown : channel.packages ≡ sort_packages packages
  pub sequence : channel.revocation_sequence ≡ document.sequence

module _ (ext : Externals) (engine : Io) (updater : Updater) where
  -- The revocations that were read are those of the target, and they are valid.
  read_documents-inv :
      (names : List Text) {d : ChannelProfile × RevocationsDocument × List ℕ}
      → read_documents ext engine updater names ≡ ok d
      → (updater.get_target revocations_target ≡ ok d.2)
        × (ext.decode_revocations d.2 ≡ ok d.1)
        × (validate_revocations ext d.1 ≡ ok tt)
  unfolding read_documents
  read_documents-inv names {d} e =
      let (has_profile, e1) = >>-eq-ok (require_target names channel_profile_target) _ e in
      let (has_revocations, e2) = >>-eq-ok (require_target names revocations_target) _ e1 in
      let (channel_bytes, has_channel, e3) =
        >>=-eq-ok (updater.get_target channel_profile_target) _ e2 in
      let (bytes, has_bytes, e4) = >>=-eq-ok (updater.get_target revocations_target) _ e3 in
      let (profile, is_profile, e5) =
        >>=-eq-ok (map_err ChannelError.json (ext.decode_profile channel_bytes)) _ e4 in
      let (document, is_document, e6) =
        >>=-eq-ok (map_err ChannelError.json (ext.decode_revocations bytes)) _ e5 in
      let (good_profile, e7) = >>-eq-ok (validate_channel_profile ext profile) _ e6 in
      let (good_document, e8) = >>-eq-ok (validate_revocations ext document) _ e7 in
      subst
        (λ (x : ChannelProfile × RevocationsDocument × List ℕ).
          (updater.get_target revocations_target ≡ ok x.2)
          × (ext.decode_revocations x.2 ≡ ok x.1)
          × (validate_revocations ext x.1 ≡ ok tt))
        (ok-injective (profile, document, bytes) d e8)
        (has_bytes, map_err-eq-ok _ _ is_document, good_document)

  accept_documents-inv :
      (file : StateFile) (root_sha256 now : Text) (timestamp : TimestampMetadata)
      (snapshot targets : ℕ) (d : ChannelProfile × RevocationsDocument × List ℕ)
      {new_file : StateFile} {channel : VerifiedContextChannel}
      → accept_documents ext engine updater file root_sha256 now timestamp snapshot targets d
        ≡ ok (new_file, channel)
      → (updater.get_target revocations_target ≡ ok d.2)
        × (ext.decode_revocations d.2 ≡ ok d.1)
        × (validate_revocations ext d.1 ≡ ok tt)
      → Inspection ext engine updater file new_file channel
  unfolding accept_documents prepare_revocation_state accept_channel
  accept_documents-inv file root_sha256 now timestamp snapshot targets (profile, document, bytes)
        {new_file} {channel} e read =
      let (prepared, is_prepared, e1) =
        >>=-eq-ok (prepare_revocation_state ext file document bytes) _ e in
      let (accepted, is_accepted, e2) =
        >>=-eq-ok (accept_channel ext engine updater file profile document prepared.0 prepared.1) _
          e1 in
      let (state, is_loaded, is_advanced) = >>=-eq-ok (load_state ext file) _ is_prepared in
      let (packages, are_checked, e3) =
        >>=-eq-ok
          (check_packages ext updater.get_targetinfo prepared.0.tombstones [] profile.packages) _
          is_accepted in
      let (some_package, e4) =
        >>-eq-ok
          (require (not (is_empty packages))
            (text_of "channel does not expose any Semantic Engine package"))
          _ e3 in
      let (kept_file, is_kept, e5) =
        >>=-eq-ok (keep_state ext engine file prepared.0 prepared.1) _ e4 in
      subst (λ (x : StateFile × VerifiedContextChannel). Inspection ext engine updater file x.0 x.1)
        (ok-injective _ _ e2)
        (record {
          document = document;
          bytes = bytes;
          state = state;
          prepared = prepared;
          fetched = read.0;
          decoded = read.1;
          checked = read.2;
          loaded = is_loaded;
          advances = is_advanced;
          packages = packages;
          listed = are_checked;
          kept =
              is_kept
              ∙ ap (λ (x : StateFile × List ContextChannelPackage). ok x.0) (ok-injective _ _ e5);
          shown =
              ap (λ (x : StateFile × List ContextChannelPackage). x.1) (sym (ok-injective _ _ e5));
          sequence = refl;
        })

  pub inspect_channel-Inspection :
      (file : StateFile) (root_bytes : List ℕ) (now : Text) {new_file : StateFile}
      {channel : VerifiedContextChannel}
      → inspect_channel ext engine updater file root_bytes now ≡ ok (new_file, channel)
      → Inspection ext engine updater file new_file channel
  unfolding inspect_channel
  inspect_channel-Inspection file root_bytes now {new_file} {channel} e =
      let (timestamp, has_timestamp, e1) =
        >>=-eq-ok
          (ok_or updater.timestamp (invalid (text_of "verified timestamp metadata is missing"))) _
          e in
      let (snapshot, has_snapshot, e2) =
        >>=-eq-ok
          (ok_or updater.snapshot (invalid (text_of "verified snapshot metadata is missing"))) _
          e1 in
      let (targets, has_targets, e3) =
        >>=-eq-ok (ok_or updater.targets (invalid (text_of "verified targets metadata is missing")))
          _ e2 in
      let (few, e4) =
        >>-eq-ok
          (require (not (ltb (max_packages + 2) (length targets.names)))
            (text_of "channel exposes too many top-level targets"))
          _ e3 in
      let (documents, are_read, e5) =
        >>=-eq-ok (read_documents ext engine updater targets.names) _ e4 in
      accept_documents-inv file (ext.digest root_bytes) now timestamp snapshot targets.version
        documents e5 (read_documents-inv targets.names are_read)

-- The state file holds a tombstone of an archive.
abbrev pub Holds : Externals → StateFile → Text → ContextRevocation → Type 0
Holds ext file hash revocation =
    (state : RevocationState) × (load_state ext file ≡ ok state)
    × (tombstone hash state.tombstones ≡ some revocation)

module _ (ext : Externals) (laws : ChannelLaws ext) where
  -- After an accepted inspection the file is loaded as the state that was prepared.
  pub kept-load :
      (engine : Io) (updater : Updater) (file : StateFile) {new_file : StateFile}
      {channel : VerifiedContextChannel}
      → (i : Inspection ext engine updater file new_file channel)
      → load_state ext new_file ≡ ok i.prepared.0
  unfolding keep_state
  kept-load engine updater file {new_file} {channel} i =
      elim (advance-Advances i.state i.document (ext.digest i.bytes) i.advances) [
        | inl (unchanged, same, at, sha256) ↦
            subst (λ f. load_state ext f ≡ ok i.prepared.0)
              (ok-injective _ _ (
                subst (λ b. keep_state ext engine file i.prepared.0 b ≡ ok new_file) unchanged
                  i.kept))
              (rw same i.loaded)
        | inr (changed, later, bounded, now) ↦
            write-load ext laws engine i.prepared.0
              (subst (λ b. keep_state ext engine file i.prepared.0 b ≡ ok new_file) changed i.kept)
              (subst (λ s. validate_revocation_state s ≡ ok tt) (sym now)
                (advanced-valid ext i.state i.document (ext.digest i.bytes)
                  (load_state-IsLoaded ext file i.loaded) i.checked (laws.digest_hex i.bytes) later
                  bounded))
      ]

  -- A tombstone stays in the file with its content.
  pub Inspection-Holds :
      (engine : Io) (updater : Updater) (file : StateFile) {new_file : StateFile}
      {channel : VerifiedContextChannel} (hash : Text) (revocation : ContextRevocation)
      → (i : Inspection ext engine updater file new_file channel) → Holds ext file hash revocation
      → tombstone hash i.prepared.0.tombstones ≡ some revocation
  Inspection-Holds engine updater file {new_file} {channel} hash revocation i
        (state, loaded, there) =
      let in_state : tombstone hash i.state.tombstones ≡ some revocation =
        subst (λ (s : RevocationState). tombstone hash s.tombstones ≡ some revocation)
          (ok-injective _ _ (sym loaded ∙ i.loaded)) there in
      elim (advance-Advances i.state i.document (ext.digest i.bytes) i.advances) [
        | inl (unchanged, same, at, sha256) ↦ rw same in_state
        | inr (changed, later, bounded, now) ↦
            rw now (bury-keeps i.document.entries hash i.state.tombstones in_state)
      ]

  -- An accepted inspection of the channel, each with its own updater
  pub data Reach (file : StateFile) : StateFile → Type 0 where
    here : Reach file file
    next :
        (engine : Io) (updater : Updater) {old new_file : StateFile} (root_bytes : List ℕ)
        (now : Text) {channel : VerifiedContextChannel}
        → Reach file old
        → inspect_channel ext engine updater old root_bytes now ≡ ok (new_file, channel)
        → Reach file new_file

  pub Reach-Holds :
      (file : StateFile) {new_file : StateFile} (hash : Text) (revocation : ContextRevocation)
      → Reach file new_file
      → Holds ext file hash revocation
      → Holds ext new_file hash revocation
  Reach-Holds file hash revocation here h = h
  Reach-Holds file hash revocation (next engine updater {old} root_bytes now before e) h =
      let i = inspect_channel-Inspection ext engine updater old root_bytes now e in
      (
        i.prepared.0,
        kept-load engine updater old i,
        Inspection-Holds engine updater old hash revocation i
            (Reach-Holds file hash revocation before h),
      )
