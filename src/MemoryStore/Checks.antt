-- ===== src/MemoryStore/Checks.antt =====
-- The validations and conversions of crates/semantic-engine-memory-store/src/lib.rs.
use semantic_engine.Common.{
  ℕ, Text, List, [], ◌∷◌, not, ◌||◌, ltb, ◌==◌, is_empty, length, byte_len, any, all, is_control,
  is_ascii_hexdigit, if◌then◌else◌, ◌+◌, ◌/◌, ◌%◌,
}
use semantic_engine.Common.Results.{Result, guard}
use semantic_engine.Common.Machine.{to_i64_or}
use semantic_engine.Core.Limits.{max_identifier_chars, max_expression_chars}
use semantic_engine.MemoryStore.Types.{MemoryPolicy, MemoryError, invalid_policy, invalid_entry}

abbrev pub max_memory_capacity : ℕ
max_memory_capacity = 100000

-- 365 days.
abbrev pub max_memory_ttl : ℕ
max_memory_ttl = 31536000000000000

abbrev pub max_memory_page : ℕ
max_memory_page = 1000

abbrev pub normalization_version : ℕ
normalization_version = 1

unfoldable pub validate_policy : MemoryPolicy → Result MemoryError (Unit {0})
validate_policy policy =
    guard
      (not (
        policy.capacity == 0
        || ltb max_memory_capacity policy.capacity
        || policy.ttl == 0
        || ltb max_memory_ttl policy.ttl))
      invalid_policy

unfoldable pub validate_context : Text → Result MemoryError (Unit {0})
validate_context value =
    guard (not (not (byte_len value == 64) || not (all is_ascii_hexdigit value))) invalid_entry

unfoldable pub validate_identifier : Text → Result MemoryError (Unit {0})
validate_identifier value =
    guard (not (is_empty value || ltb max_identifier_chars (length value) || any is_control value))
      invalid_entry

unfoldable pub validate_expression : Text → Result MemoryError (Unit {0})
validate_expression value =
    guard (not (is_empty value || ltb max_expression_chars (length value) || any is_control value))
      invalid_entry

unfoldable pub validate_memory_id : Text → Result MemoryError (Unit {0})
validate_memory_id value =
    guard (not (not (byte_len value == 32) || not (all is_ascii_hexdigit value))) invalid_entry

unfoldable pub to_i64 : ℕ → Result MemoryError ℕ
to_i64 = to_i64_or invalid_entry

-- `{byte:02x}`
unfoldable pub hex_digit : ℕ → ℕ
hex_digit n = if ltb n 10 then n + 48 else n + 87

unfoldable pub hex : List ℕ → Text
unfolding hex_digit
hex [] = []
hex (byte ∷ bytes) = hex_digit (byte / 16) ∷ hex_digit (byte % 16) ∷ hex bytes
