-- ===== src/Source/Samples.antt =====
-- An instance of what crates/semantic-engine-source calls, and a source to run the model on.
use semantic_engine.Common.{
  ℕ, Text, none, some, List, [], ◌∷◌, ◌||◌, ◌==◌, text_of, ◌≡◌, refl, ap, ◌∙◌, arith,
}
use semantic_engine.Common.Fields.{write_fields, read_fields, read_fields-write_fields}
use semantic_engine.Common.Results.{ok}
use semantic_engine.Common.Machine.{io_ok, millis}
use semantic_engine.Source.Types.{
  Settings, CreateSource, UpdateSource, Tables, Externals, RoundTrips, Row, paused,
}
use semantic_engine.Source.Store.{Env}

abbrev pub fields_of : Settings → List Text
fields_of [] = []
fields_of ((key, value) ∷ rest) = key ∷ value ∷ fields_of rest

abbrev pairs_of : List Text → Settings
pairs_of [] = []
pairs_of (key ∷ []) = []
pairs_of (key ∷ value ∷ rest) = (key, value) ∷ pairs_of rest

pairs_of-fields_of : (s : Settings) → pairs_of (fields_of s) ≡ s
pairs_of-fields_of [] = refl
pairs_of-fields_of ((key, value) ∷ rest) = ap (λ t. (key, value) ∷ t) (pairs_of-fields_of rest)

abbrev pub sample : Externals
sample = record {
  is_whitespace = λ c. c == 0x20 || c == 0x3000;
  encode_settings = λ s. some (write_fields (fields_of s));
  decode_settings = λ t. ok (pairs_of (read_fields t));
}

read_back : (s : Settings) → pairs_of (read_fields (write_fields (fields_of s))) ≡ s
read_back s = ap pairs_of (read_fields-write_fields (fields_of s)) ∙ pairs_of-fields_of s

pub sample-RoundTrips : RoundTrips sample
sample-RoundTrips = record { decode_encode = λ s json e. ground (arith, read_back s) }

abbrev pub at : ℕ → Env
at now = record { io = io_ok; clock = millis now }

abbrev pub channel : Settings
channel = (text_of "channel", text_of "semantic") ∷ []

abbrev pub create : Text → CreateSource
create source_id = record {
  source_id = source_id;
  adapter = text_of "twitch";
  display_name = text_of "Main chat";
  settings = channel;
  credential_id = none;
}

abbrev pub twitch_main : Text
twitch_main = text_of "twitch-main"

abbrev pub revise_to : ℕ → UpdateSource
revise_to expected_revision = record {
  expected_revision = expected_revision;
  display_name = text_of "Second chat";
  settings = channel;
  credential_id = some (text_of "vault.1");
}

-- A row of a source that was added at a time
abbrev pub added_row : Text → ℕ → Row
added_row source_id now = record {
  source_id = source_id;
  adapter = text_of "twitch";
  display_name = text_of "Main chat";
  settings_json = write_fields (fields_of channel);
  credential_id = none;
  desired_state = paused;
  revision = 1;
  created_at_ms = now;
  updated_at_ms = now;
}

abbrev pub empty : Tables
empty = record { sources = []; checkpoints = [] }

abbrev pub one_source : Tables
one_source = record { sources = added_row twitch_main 5 ∷ []; checkpoints = [] }
