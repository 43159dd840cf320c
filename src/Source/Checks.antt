-- ===== src/Source/Checks.antt =====
-- The validations of crates/semantic-engine-source/src/lib.rs.
use semantic_engine.Common.{
  ℕ, Text, Bool, false, Option, none, some, List, [], ◌∷◌, not, ◌||◌, ltb, ◌==◌, ◌=t◌,
  if◌then◌else◌, length, all, any, last, is_empty, text_of, byte_len, is_control,
  is_ascii_alphanumeric, to_ascii_lowercase, trim, contains,
}
use semantic_engine.Common.Results.{Result, ok, err, ◌>>=◌, ◌>>◌, guard}
use semantic_engine.Common.Machine.{u64_max, saturating_add, to_i64_or, Clock, millis, before_epoch}
use semantic_engine.Source.Types.{Settings, CreateSource, SourceError, invalid, Externals}

abbrev pub source_contract_version : ℕ
source_contract_version = 2

abbrev pub max_sources : ℕ
max_sources = 64

abbrev pub max_settings : ℕ
max_settings = 32

abbrev pub max_id_chars : ℕ
max_id_chars = 128

abbrev pub max_adapter_chars : ℕ
max_adapter_chars = 64

abbrev pub max_display_name_chars : ℕ
max_display_name_chars = 80

abbrev pub max_setting_key_chars : ℕ
max_setting_key_chars = 64

abbrev pub max_setting_value_chars : ℕ
max_setting_value_chars = 512

abbrev pub max_settings_bytes : ℕ
max_settings_bytes = 8192

abbrev pub max_checkpoint_bytes : ℕ
max_checkpoint_bytes = 8192

-- A dot or a dash, which an identifier may not start or end with
abbrev pub is_edge : Option ℕ → Bool
is_edge none = false
is_edge (some c) = c == b'.' || c == b'-'

abbrev pub first : Text → Option ℕ
first [] = none
first (c ∷ s) = some c

-- An ASCII byte stands for itself in UTF-8 and no other character has ASCII bytes, so `bytes().all`
-- of an ASCII test is the test of every character.
unfoldable pub valid_identifier : Text → ℕ → Bool
valid_identifier value max_chars = not (
    is_empty value
    || ltb max_chars (length value)
    || is_edge (first value)
    || is_edge (last value)
    || not (all (λ c. is_ascii_alphanumeric c || c == b'.' || c == b'_' || c == b'-') value))

unfoldable pub validate_identifier : Text → ℕ → Text → Result SourceError (Unit {0})
unfolding valid_identifier
validate_identifier value max_chars reason =
    guard (valid_identifier value max_chars) (invalid reason)

-- The markers of a key that names a secret
abbrev pub markers : List Text
markers =
    text_of "token"
    ∷ text_of "secret"
    ∷ text_of "password"
    ∷ text_of "private_key"
    ∷ text_of "authorization"
    ∷ text_of "cookie"
    ∷ []

unfoldable pub is_sensitive_key : Text → Bool
is_sensitive_key key = any (λ marker. contains marker (to_ascii_lowercase key)) markers

unfoldable pub validate_credential_id : Option Text → Result SourceError (Unit {0})
unfolding validate_identifier
validate_credential_id none = ok tt
validate_credential_id (some value) =
    validate_identifier value max_id_chars (text_of "credential identifier is invalid")

-- The loop of `validate_settings`; `total` is `total_bytes` so far.
unfoldable pub check_settings : ℕ → Settings → Result SourceError ℕ
unfolding validate_identifier is_sensitive_key
check_settings total [] = ok total
check_settings total ((key, value) ∷ rest) = do
  validate_identifier key max_setting_key_chars (text_of "setting key is invalid")
  guard (not (is_sensitive_key key))
      (invalid (text_of "secrets must use credential_id instead of source settings"))
  guard (not (ltb max_setting_value_chars (length value) || any is_control value))
      (invalid (text_of "setting value is invalid"))
  check_settings (saturating_add (saturating_add total (byte_len key)) (byte_len value)) rest

unfoldable pub validate_settings : Settings → Result SourceError (Unit {0})
unfolding check_settings
validate_settings settings = do
  guard (not (ltb max_settings (length settings))) (invalid (text_of "too many source settings"))
  total ← check_settings 0 settings
  guard (not (ltb max_settings_bytes total)) (invalid (text_of "source settings are too large"))

unfoldable pub validate_display_name : Externals → Text → Result SourceError (Unit {0})
validate_display_name ext value =
    let trimmed = trim ext.is_whitespace value in
    guard
      (not (
        not (trimmed =t value)
        || is_empty trimmed
        || ltb max_display_name_chars (length value)
        || any is_control value))
      (invalid (text_of "display name is invalid"))

unfoldable pub validate_create : Externals → CreateSource → Result SourceError (Unit {0})
unfolding validate_identifier validate_display_name validate_settings validate_credential_id
validate_create ext request = do
  validate_identifier request.source_id max_id_chars (text_of "source identifier is invalid")
  validate_identifier request.adapter max_adapter_chars (text_of "adapter identifier is invalid")
  validate_display_name ext request.display_name
  validate_settings request.settings
  validate_credential_id request.credential_id

unfoldable pub to_i64 : ℕ → Result SourceError ℕ
to_i64 = to_i64_or (invalid (text_of "numeric value is too large"))

unfoldable pub now_ms : Clock → Result SourceError ℕ
now_ms before_epoch = err (invalid (text_of "system clock is before the Unix epoch"))
now_ms (millis n) =
    if ltb u64_max n then err (invalid (text_of "system clock cannot be represented")) else ok n
