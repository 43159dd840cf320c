-- ===== src/Source/Types.antt =====
-- The data of crates/semantic-engine-source/src/lib.rs. A `BTreeMap` is the list of its pairs in the
-- order of its keys.
use semantic_engine.Common.{ℕ, Text, Bool, true, false, Option, some, List, ◌≡◌}
use semantic_engine.Common.Results.{Result, ok}
use semantic_engine.Core.Types.{Submission}

abbrev pub Settings : Type 0
Settings = List (Text × Text)

pub data SourceDesiredState : Type 0 where
  paused active : SourceDesiredState

abbrev pub same_state : SourceDesiredState → SourceDesiredState → Bool
same_state paused paused = true
same_state active active = true
same_state _ _ = false

pub record SourceDefinition : Type 0 where
  pub contract_version : ℕ
  pub source_id : Text
  pub adapter : Text
  pub display_name : Text
  pub settings : Settings
  pub credential_id : Option Text

pub record SourceRecord : Type 0 where
  pub definition : SourceDefinition
  pub desired_state : SourceDesiredState
  pub revision : ℕ
  pub created_at_ms : ℕ
  pub updated_at_ms : ℕ

pub record CreateSource : Type 0 where
  pub source_id : Text
  pub adapter : Text
  pub display_name : Text
  pub settings : Settings
  pub credential_id : Option Text

pub record UpdateSource : Type 0 where
  pub expected_revision : ℕ
  pub display_name : Text
  pub settings : Settings
  pub credential_id : Option Text

pub record SourceMessage : Type 0 where
  pub source_id : Text
  pub message_id : Text
  pub participant_id : Text
  pub source_sequence : ℕ
  pub text : Text
  pub occurred_at_ms : ℕ

unfoldable pub into_submission : SourceMessage → Submission
into_submission m = record {
  message_id = m.message_id;
  participant_id = m.participant_id;
  source_sequence = m.source_sequence;
  text = m.text;
}

pub data SourceError : Type 0 where
  database invalid : Text → SourceError
  capacity_exceeded conflict missing must_be_paused : SourceError

-- A row of `input_sources`. The check of the column and `as_str` keep `desired_state` to the two
-- states.
pub record Row : Type 0 where
  pub source_id : Text
  pub adapter : Text
  pub display_name : Text
  pub settings_json : Text
  pub credential_id : Option Text
  pub desired_state : SourceDesiredState
  pub revision : ℕ
  pub created_at_ms : ℕ
  pub updated_at_ms : ℕ

pub record Checkpoint : Type 0 where
  pub source_id : Text
  pub cursor : Text
  pub updated_at_ms : ℕ

-- The tables `input_sources` and `source_checkpoints`
pub record Tables : Type 0 where
  pub sources : List Row
  pub checkpoints : List Checkpoint

-- What the store calls: the characters that `str::trim` takes for white space, and `serde_json` on
-- the settings, which may fail to write them and fails to read with a message.
pub record Externals : Type 0 where
  pub is_whitespace : ℕ → Bool
  pub encode_settings : Settings → Option Text
  pub decode_settings : Text → Result Text Settings

-- `serde_json` reads back what it wrote.
pub record RoundTrips (ext : Externals) : Type 0 where
  pub decode_encode :
      (s : Settings) (json : Text)
      → ext.encode_settings s ≡ some json
      → ext.decode_settings json ≡ ok s
