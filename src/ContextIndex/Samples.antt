-- ===== src/ContextIndex/Samples.antt =====
-- An instance of what crates/semantic-engine-context-index calls, and a channel with a revoked package.
use semantic_engine.Common.{
  ℕ, zero, suc, Text, true, Option, none, some, List, [], ◌∷◌, ◌+◌, ◌%◌, ◌==◌, length, all, text_of,
  byte_len, len_utf8, is_ascii_hexdigit, ◌≡◌, refl, ap, ◌∙◌, sym, arith,
}
use semantic_engine.Common.Fields.{write_fields, read_fields, read_fields-write_fields}
use semantic_engine.Common.Results.{Result, ok, err, ok-injective}
use semantic_engine.ContextIndex.Types.{
  ChannelProfile, ContextTargetMetadata, RevocationReason, compromised, invalid_data, legal,
  withdrawn, other, ContextRevocation, RevocationsDocument, Tombstones, RevocationState, StateFile,
  regular, Externals,
}
use semantic_engine.ContextIndex.Checks.{valid_sha256}
use semantic_engine.ContextIndex.Channel.{Updater}
use semantic_engine.ContextIndex.Advance.{ChannelLaws}

abbrev fill : ℕ → ℕ → Text
fill zero c = []
fill (suc n) c = c ∷ fill n c

byte_len-fill : (n c : ℕ) → len_utf8 c ≡ 1 → byte_len (fill n c) ≡ n
byte_len-fill zero c h = refl
byte_len-fill (suc n) c h = ground (arith, h, byte_len-fill n c h)

hexdigits-fill : (n c : ℕ) → is_ascii_hexdigit c ≡ true → all is_ascii_hexdigit (fill n c) ≡ true
hexdigits-fill zero c h = refl
hexdigits-fill (suc n) c h = ground (arith, h, hexdigits-fill n c h)

-- A digit that the length of the bytes gives, 64 times
abbrev digit : List ℕ → ℕ
digit bytes = 48 + length bytes % 10

abbrev pub digest : List ℕ → Text
digest bytes = fill 64 (digit bytes)

digest-hex : (bytes : List ℕ) → valid_sha256 (digest bytes) ≡ true
unfolding valid_sha256
digest-hex bytes =
    rw
      (
        byte_len-fill 64 (digit bytes) (ground arith),
        hexdigits-fill 64 (digit bytes) (ground arith),
      )
      refl

abbrev reason_code : RevocationReason → ℕ
reason_code compromised = 0
reason_code invalid_data = 1
reason_code legal = 2
reason_code withdrawn = 3
reason_code other = 4

abbrev code_reason : ℕ → RevocationReason
code_reason zero = compromised
code_reason (suc zero) = invalid_data
code_reason (suc (suc zero)) = legal
code_reason (suc (suc (suc zero))) = withdrawn
code_reason (suc (suc (suc (suc n)))) = other

code_reason-reason_code : (r : RevocationReason) → code_reason (reason_code r) ≡ r
code_reason-reason_code compromised = refl
code_reason-reason_code invalid_data = refl
code_reason-reason_code legal = refl
code_reason-reason_code withdrawn = refl
code_reason-reason_code other = refl

abbrev replacement_text : Option Text → Text
replacement_text none = []
replacement_text (some t) = 0 ∷ t

abbrev text_replacement : Text → Option Text
text_replacement [] = none
text_replacement (c ∷ t) = some t

text_replacement-replacement_text : (o : Option Text) → text_replacement (replacement_text o) ≡ o
text_replacement-replacement_text none = refl
text_replacement-replacement_text (some t) = refl

abbrev tombstone_fields : Tombstones → List Text
tombstone_fields [] = []
tombstone_fields ((key, r) ∷ rest) =
    key
    ∷ r.archive_sha256
    ∷ r.package_id
    ∷ r.package_version
    ∷ r.effective_at
    ∷ (reason_code r.reason ∷ [])
    ∷ replacement_text r.replacement
    ∷ tombstone_fields rest

abbrev first_code : Text → ℕ
first_code [] = 0
first_code (c ∷ t) = c

abbrev fields_tombstone : List Text → Tombstones
fields_tombstone (key ∷ sha256 ∷ id ∷ version ∷ at ∷ reason ∷ replacement ∷ rest) =
    (
      key,
      record {
        archive_sha256 = sha256;
        package_id = id;
        package_version = version;
        effective_at = at;
        reason = code_reason (first_code reason);
        replacement = text_replacement replacement;
      },
    )
    ∷ fields_tombstone rest
fields_tombstone _ = []

fields_tombstone-tombstone_fields : (ts : Tombstones) → fields_tombstone (tombstone_fields ts) ≡ ts
fields_tombstone-tombstone_fields [] = refl
fields_tombstone-tombstone_fields ((key, r) ∷ rest) =
    rw
      (
        code_reason-reason_code r.reason,
        text_replacement-replacement_text r.replacement,
        fields_tombstone-tombstone_fields rest,
      )
      refl

abbrev state_fields : RevocationState → List Text
state_fields s =
    (s.format_version ∷ s.highest_sequence ∷ []) ∷ s.document_sha256 ∷ tombstone_fields s.tombstones

abbrev fields_state : List Text → Result Text RevocationState
fields_state ((version ∷ sequence ∷ []) ∷ sha256 ∷ rest) = ok (record {
  format_version = version;
  highest_sequence = sequence;
  document_sha256 = sha256;
  tombstones = fields_tombstone rest;
})
fields_state _ = err (text_of "not a state")

abbrev pub game : ContextTargetMetadata
game = record {
  profile = text_of "context-target-v1";
  package_id = text_of "urn:game";
  package_name = text_of "game";
  package_version = text_of "1.0.0";
  format_version = text_of "0.1.0";
  kind = text_of "recognition-context";
  locales = text_of "en" ∷ text_of "fr-FR" ∷ [];
  kinds = text_of "game" ∷ [];
  target_count = 2;
  spdx_license_expression = text_of "MIT";
}

abbrev pub profile : ChannelProfile
profile = record {
  schema = text_of "urn:semantic-engine:context-channel-profile:1";
  format_version = 1;
  id = text_of "games";
  name = text_of "Games";
  homepage = text_of "https://example.org";
  packages = record { path = text_of "packs/game.zip"; metadata = game } ∷ [];
}

abbrev pub archive : Text
archive = fill 64 b'a'

abbrev pub withdrawal : ContextRevocation
withdrawal = record {
  archive_sha256 = archive;
  package_id = text_of "urn:game";
  package_version = text_of "1.0.0";
  effective_at = text_of "2026-01-01T00:00:00Z";
  reason = withdrawn;
  replacement = none;
}

-- The first document revokes the package, and later ones no longer name it.
abbrev entries_at : ℕ → List ContextRevocation
entries_at zero = []
entries_at (suc zero) = withdrawal ∷ []
entries_at (suc (suc n)) = []

abbrev document_at : ℕ → RevocationsDocument
document_at n = record {
  schema = text_of "urn:semantic-engine:context-revocations:1";
  format_version = 1;
  sequence = n;
  updated_at = text_of "2026-01-01T00:00:00Z";
  entries = entries_at n;
}

abbrev pub plain : Externals
plain = record {
  is_whitespace = λ c. c == 0x20;
  is_version = λ t. true;
  is_license = λ t. true;
  is_timestamp = λ t. true;
  digest = digest;
  encode_state = λ s. ok (write_fields (state_fields s));
  decode_state = λ bytes. fields_state (read_fields bytes);
  decode_profile = λ bytes. ok profile;
  decode_revocations = λ bytes. ok (document_at (length bytes));
}

pub plain-ChannelLaws : ChannelLaws plain
plain-ChannelLaws = record {
  decode_encode = λ s bytes e.
      ap (λ t. fields_state (read_fields t)) (sym (ok-injective _ _ e))
      ∙ ap fields_state (read_fields-write_fields (state_fields s))
      ∙ rw (fields_tombstone-tombstone_fields s.tombstones) refl;
  digest_hex = digest-hex;
}

-- The channel with a document of as many bytes as its sequence number
abbrev pub channel_at : ℕ → Updater
channel_at n = record {
  root_version = 1;
  timestamp = some (record { version = 1; expires = text_of "2027-01-01T00:00:00Z" });
  snapshot = some 1;
  targets = some (record {
    version = 1;
    names = text_of "channel-profile.json" ∷ text_of "revocations-v1.json" ∷ [];
  });
  get_target = λ name. ok (fill n 1);
  get_targetinfo = λ path. ok (some (record { length = 9; sha256 = some archive }));
}

-- The file after the first document
abbrev pub first_state : RevocationState
first_state = record {
  format_version = 1;
  highest_sequence = 1;
  document_sha256 = digest (1 ∷ []);
  tombstones = (archive, withdrawal) ∷ [];
}

abbrev pub file_of : RevocationState → StateFile
file_of s = regular (length (write_fields (state_fields s))) (ok (write_fields (state_fields s)))
