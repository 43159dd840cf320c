-- ===== src/ContextIndex/Revoked.antt =====
-- What crates/semantic-engine-context-index/src/lib.rs shows of revoked packages.
use semantic_engine.Common.{
  ℕ, Text, true, Option, none, some, List, [], ◌∷◌, ltb, ◌=t◌, text_le, text_of, to_ascii_lowercase,
  ◌≡◌, refl, sym, ◌∙◌, ap, subst, ◌⊎◌, inl, inr, All, All-map, Bool-cases, any, not, ◌&&◌, ◌++◌,
}
use semantic_engine.Common.Results.{Result, ok, ok_or, >>=-eq-ok, >>-eq-ok, ok-injective}
use semantic_engine.Common.Machine.{Io}
use semantic_engine.ContextIndex.Types.{
  revocations_target, ChannelError, ChannelPackageReference, ContextRevocation, RevocationsDocument,
  Tombstones, RevocationState, ContextChannelPackage, VerifiedContextChannel, StateFile, Externals,
}
use semantic_engine.ContextIndex.Checks.{require, validate_package}
use semantic_engine.ContextIndex.Revocations.{tombstone, load_state}
use semantic_engine.ContextIndex.Channel.{
  TargetFile, Updater, same_identity, check_package, check_target, check_packages, insert_package,
  sort_packages, keep_state, inspect_channel,
}
use semantic_engine.ContextIndex.Tombstones.{IsBuried, bury-buries}
use semantic_engine.ContextIndex.Advance.{ChannelLaws, advance-Advances}
use semantic_engine.ContextIndex.History.{
  inspect_channel-Inspection, Holds, kept-load, Reach, Reach-Holds, Inspection-Holds,
}

-- The package shows the revocation of its archive, if there is one.
abbrev pub IsJudged : Tombstones → ContextChannelPackage → Type 0
IsJudged ts p = p.revocation ≡ tombstone p.archive_sha256 ts

check_target-IsJudged :
    (ext : Externals) (ts : Tombstones) (seen : List (Text × Text))
    (reference : ChannelPackageReference) (target : TargetFile) (sha256 : Option Text)
    {p : ContextChannelPackage}
    → check_target ext ts seen reference target sha256 ≡ ok p
    → IsJudged ts p
unfolding check_target check_package
check_target-IsJudged ext ts seen reference target none {p} e =
    let (valid, e1) =
      >>-eq-ok (validate_package ext reference.path reference.metadata target.length none) _ e in
    cc e1
check_target-IsJudged ext ts seen reference target (some sha256) {p} e =
    let (valid, e1) =
      >>-eq-ok (validate_package ext reference.path reference.metadata target.length (some sha256))
        _ e in
    let (new, e2) =
      >>-eq-ok
        (require
          (not (
            any
              (λ (identity : Text × Text).
                identity.0 =t reference.metadata.package_id
                && identity.1 =t reference.metadata.package_version)
              seen))
          (text_of "duplicate package identity and version"))
        _ e1 in
    let (same, e3) =
      >>-eq-ok
        (require (same_identity reference.metadata (tombstone (to_ascii_lowercase sha256) ts))
          (text_of "revocation identity conflicts with signed target metadata"))
        _ e2 in
    subst (IsJudged ts) (ok-injective _ p e3) refl

check_packages-IsJudged :
    (ext : Externals) (get_targetinfo : Text → Result ChannelError (Option TargetFile))
    (ts : Tombstones) (seen : List (Text × Text)) (references : List ChannelPackageReference)
    {ps : List ContextChannelPackage}
    → check_packages ext get_targetinfo ts seen references ≡ ok ps
    → All (IsJudged ts) ps
unfolding check_packages
check_packages-IsJudged ext get_targetinfo ts seen [] {ps} e =
    subst (All (IsJudged ts)) (ok-injective [] ps e) tt
check_packages-IsJudged ext get_targetinfo ts seen (reference ∷ references) {ps} e =
    let (found, is_found, e1) = >>=-eq-ok (get_targetinfo reference.path) _ e in
    let (target, is_target, e2) =
      >>=-eq-ok
        (ok_or found (
          ChannelError.invalid
            (text_of "listed context target \"" ++ reference.path ++ text_of "\" is missing")))
        _ e1 in
    let (first, checked, e3) =
      >>=-eq-ok (check_target ext ts seen reference target target.sha256) _ e2 in
    let (others, rest, e4) =
      >>=-eq-ok
        (check_packages ext get_targetinfo ts
          ((reference.metadata.package_id, reference.metadata.package_version) ∷ seen) references)
        _ e3 in
    subst (All (IsJudged ts)) (ok-injective (first ∷ others) ps e4) (
      check_target-IsJudged ext ts seen reference target target.sha256 checked,
      check_packages-IsJudged ext get_targetinfo ts
          ((reference.metadata.package_id, reference.metadata.package_version) ∷ seen) references
          rest,
    )

insert_package-All {κ} :
    (P : ContextChannelPackage → Type κ) (p : ContextChannelPackage)
    (ps : List ContextChannelPackage)
    → P p
    → All P ps
    → All P (insert_package p ps)
unfolding insert_package
insert_package-All P p [] h hs = (h, tt)
insert_package-All P p (q ∷ qs) h (hq, hqs) =
    elim (Bool-cases (text_le p.target_path q.target_path)) [
      | inl before ↦ rw (before, insert_package) (h, (hq, hqs))
      | inr after ↦ rw (after, insert_package) (hq, insert_package-All P p qs h hqs)
    ]

sort_packages-All {κ} :
    (P : ContextChannelPackage → Type κ) (ps : List ContextChannelPackage)
    → All P ps
    → All P (sort_packages ps)
unfolding sort_packages
sort_packages-All P [] h = tt
sort_packages-All P (p ∷ ps) (h, hs) =
    insert_package-All P p (sort_packages ps) h (sort_packages-All P ps hs)

module _ (ext : Externals) (laws : ChannelLaws ext) where
  -- A revoked archive stays revoked: once the state holds the tombstone of an archive, every later
  -- inspection that is accepted, whatever documents came between and whatever the channel now says of
  -- it, shows that revocation on every package with the archive.
  pub revoked_forever :
      (file : StateFile) (hash : Text) (revocation : ContextRevocation) (engine : Io)
      (updater : Updater) (root_bytes : List ℕ) (now : Text) {old new_file : StateFile}
      {channel : VerifiedContextChannel}
      → Holds ext file hash revocation
      → Reach ext laws file old
      → inspect_channel ext engine updater old root_bytes now ≡ ok (new_file, channel)
      → All
          (λ (p : ContextChannelPackage). p.archive_sha256 ≡ hash → p.revocation ≡ some revocation)
          channel.packages
  revoked_forever file hash revocation engine updater root_bytes now {old} {new_file} {channel} held
        reach e =
      let i = inspect_channel-Inspection ext engine updater old root_bytes now e in
      let there : tombstone hash i.prepared.0.tombstones ≡ some revocation =
        Inspection-Holds ext laws engine updater old hash revocation i
          (Reach-Holds ext laws file hash revocation reach held) in
      subst
        (All
          (λ (p : ContextChannelPackage). p.archive_sha256 ≡ hash → p.revocation ≡ some revocation))
        (sym i.shown)
        (sort_packages-All _ i.packages (
          All-map i.packages
            (λ p judged same. judged ∙ ap (λ h. tombstone h i.prepared.0.tombstones) same ∙ there)
            (check_packages-IsJudged ext updater.get_targetinfo i.prepared.0.tombstones []
              channel.channel.packages i.listed)))

  -- Revocations only move forward: an accepted inspection either saw the document of the state again,
  -- with its sequence number and its digest, and left the file, or it saw one with a greater number,
  -- and then the new file is loaded as a state with that number and digest, in which every entry of the
  -- document has a tombstone.
  pub inspect_channel-Forward :
      (file : StateFile) (engine : Io) (updater : Updater) (root_bytes : List ℕ) (now : Text)
      {new_file : StateFile} {channel : VerifiedContextChannel}
      → inspect_channel ext engine updater file root_bytes now ≡ ok (new_file, channel)
      → ((state new : RevocationState) × (bytes : List ℕ) × (document : RevocationsDocument)
          × (load_state ext file ≡ ok state)
          × (load_state ext new_file ≡ ok new)
          × (updater.get_target revocations_target ≡ ok bytes)
          × (ext.decode_revocations bytes ≡ ok document)
          × (channel.revocation_sequence ≡ document.sequence)
          × (((new_file ≡ file)
                × (document.sequence ≡ state.highest_sequence)
                × (state.document_sha256 ≡ ext.digest bytes))
              ⊎ ((ltb state.highest_sequence document.sequence ≡ true)
                  × (new.highest_sequence ≡ document.sequence)
                  × (new.document_sha256 ≡ ext.digest bytes)
                  × All (IsBuried new.tombstones) document.entries)))
  unfolding keep_state
  inspect_channel-Forward file engine updater root_bytes now {new_file} {channel} e =
      let i = inspect_channel-Inspection ext engine updater file root_bytes now e in
      (
        i.state,
        i.prepared.0,
        i.bytes,
        i.document,
        i.loaded,
        kept-load ext laws engine updater file i,
        i.fetched,
        i.decoded,
        i.sequence,
        elim (advance-Advances i.state i.document (ext.digest i.bytes) i.advances) [
          | inl (unchanged, same, at, sha256) ↦ inl (
            sym (
                ok-injective _ _ (
                  subst (λ b. keep_state ext engine file i.prepared.0 b ≡ ok new_file) unchanged
                    i.kept)),
            at,
            sha256,
          )
          | inr (changed, later, bounded, next) ↦ inr (
            later,
            ap (λ (s : RevocationState). s.highest_sequence) next,
            ap (λ (s : RevocationState). s.document_sha256) next,
            subst (λ (s : RevocationState). All (IsBuried s.tombstones) i.document.entries)
                (sym next) (bury-buries i.document.entries i.state.tombstones),
          )
        ],
      )
