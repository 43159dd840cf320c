-- ===== src/ContextIndex/Tests.antt =====
-- Tests of the model of crates/semantic-engine-context-index, and its theorems at concrete inputs.
use semantic_engine.Common.{
  ℕ, Text, text_of, true, false, some, List, [], ◌∷◌, ◌++◌, ltb, all, split, starts_with, All, ◌≡◌,
  ◌⊎◌, refl, Text-discrete, ℕ_discrete,
}
use semantic_engine.Common.Results.{ok, err}
use semantic_engine.Common.Machine.{io_ok}
use semantic_engine.ContextIndex.Types.{
  revocations_target, invalid, RevocationState, RevocationsDocument, ContextChannelPackage,
  StateFile, not_found, VerifiedContextChannel,
}
use semantic_engine.ContextIndex.Checks.{
  valid_locale, valid_segment, validate_portable_relative_path,
}
use semantic_engine.ContextIndex.Revocations.{load_state, tombstone}
use semantic_engine.ContextIndex.Channel.{inspect_channel}
use semantic_engine.ContextIndex.Tombstones.{IsBuried}
use semantic_engine.ContextIndex.History.{Holds, here, next}
use semantic_engine.ContextIndex.Revoked.{revoked_forever, inspect_channel-Forward}
use semantic_engine.ContextIndex.Paths.{walk, validate_portable_relative_path-Inside}
use semantic_engine.ContextIndex.Samples.{
  plain, plain-ChannelLaws, channel_at, first_state, file_of, archive, withdrawal, profile, game,
  digest,
}

program : Unit {0}
unfolding inspect_channel load_state tombstone valid_locale valid_segment
    validate_portable_relative_path walk Text-discrete ℕ_discrete
program = tt

refuses_parent :
    validate_portable_relative_path (text_of "packs/../game.zip")
    ≡ err (invalid (text_of "target path is not a portable relative path"))
unfolding program
refuses_parent = refl

knows_locales : valid_locale (text_of "fr-FR") ≡ true
unfolding program
knows_locales = refl

-- The channel as the sample shows it, with a sequence number
abbrev shown : ℕ → VerifiedContextChannel
shown sequence = record {
  channel = profile;
  root_sha256 = digest [];
  root_version = 1;
  timestamp_version = 1;
  snapshot_version = 1;
  targets_version = 1;
  timestamp_expires = text_of "2027-01-01T00:00:00Z";
  verified_at = text_of "now";
  revocation_sequence = sequence;
  revocations_updated_at = text_of "2026-01-01T00:00:00Z";
  packages =
      record {
        target_path = text_of "packs/game.zip";
        archive_length = 9;
        archive_sha256 = archive;
        metadata = game;
        revocation = some withdrawal;
      }
      ∷ [];
}

buries_first :
    inspect_channel plain io_ok (channel_at 1) not_found [] (text_of "now")
    ≡ ok (file_of first_state, shown 1)
unfolding program
buries_first = refl

-- The file after a second document, which no longer names the archive
abbrev second_file : StateFile
second_file =
    file_of (record first_state { highest_sequence = 2; document_sha256 = digest (1 ∷ 1 ∷ []) })

forgets_nothing :
    inspect_channel plain io_ok (channel_at 2) (file_of first_state) [] (text_of "now")
    ≡ ok (second_file, shown 2)
unfolding program
forgets_nothing = refl

held : Holds plain (file_of first_state) archive withdrawal
unfolding program
held = (first_state, refl, refl)

revoked_forever_example :
    All
      (λ (p : ContextChannelPackage). p.archive_sha256 ≡ archive → p.revocation ≡ some withdrawal)
      (shown 2).packages
unfolding program
revoked_forever_example =
    revoked_forever plain plain-ChannelLaws (file_of first_state) archive withdrawal io_ok
      (channel_at 2) [] (text_of "now") {old = second_file} {new_file = second_file}
      {channel = shown 2} held
      (next io_ok (channel_at 2) {old = file_of first_state} [] (text_of "now") {channel = shown 2}
        here forgets_nothing)
      refl

inspect_channel-Forward_example :
    ((state new : RevocationState) × (bytes : List ℕ) × (document : RevocationsDocument)
      × (load_state plain not_found ≡ ok state)
      × (load_state plain (file_of first_state) ≡ ok new)
      × ((channel_at 1).get_target revocations_target ≡ ok bytes)
      × (plain.decode_revocations bytes ≡ ok document)
      × ((shown 1).revocation_sequence ≡ document.sequence)
      × (((file_of first_state ≡ not_found)
            × (document.sequence ≡ state.highest_sequence)
            × (state.document_sha256 ≡ plain.digest bytes))
          ⊎ ((ltb state.highest_sequence document.sequence ≡ true)
              × (new.highest_sequence ≡ document.sequence)
              × (new.document_sha256 ≡ plain.digest bytes)
              × All (IsBuried new.tombstones) document.entries)))
unfolding program
inspect_channel-Forward_example =
    inspect_channel-Forward plain plain-ChannelLaws not_found io_ok (channel_at 1) []
      (text_of "now") {new_file = file_of first_state} {channel = shown 1} buries_first

validate_portable_relative_path-Inside_example :
    ((starts_with (text_of "packs/game.zip") (text_of "/") ≡ false)
      × (all valid_segment (split b'/' (text_of "packs/game.zip")) ≡ true)
      × ((below : List Text) × (walk
              (split b'/' (text_of "packs/game.zip"))
              (text_of "targets" ∷ [])
            ≡ some (below ++ text_of "targets" ∷ []))))
unfolding program
validate_portable_relative_path-Inside_example =
    validate_portable_relative_path-Inside (text_of "packs/game.zip") (text_of "targets" ∷ []) refl
