-- ===== src/Service/Fingerprints.antt =====
-- The fingerprints of crates/semantic-engine-service/src/lib.rs. A hasher is the bytes it was given;
-- `hash_string` and the like give the bytes they add.
use semantic_engine.Common.{
  ℕ, zero, suc, Text, Option, none, some, List, [], ◌∷◌, ◌++◌, length, text_of, as_bytes, min, ◌/◌,
  ◌%◌,
}
use semantic_engine.Common.Machine.{u64_max}
use semantic_engine.Core.Types.{AnswerTarget, ValidationPolicy, Round, Submission}
use semantic_engine.MemoryStore.Types.{MemoryEntry}
use semantic_engine.Service.Types.{StartSession}
use semantic_engine.Service.Externals.{Externals}

-- `to_le_bytes`: the lowest `width` bytes, the lowest first.
unfoldable pub le_bytes : ℕ → ℕ → List ℕ
le_bytes zero value = []
le_bytes (suc width) value = value % 256 ∷ le_bytes width (value / 256)

unfoldable pub hash_usize : ℕ → List ℕ
unfolding le_bytes
hash_usize value = le_bytes 8 (min value u64_max)

unfoldable pub hash_string : Text → List ℕ
unfolding hash_usize
hash_string value = hash_usize (length (as_bytes value)) ++ as_bytes value

unfoldable pub hash_optional_string : Option Text → List ℕ
unfolding hash_string
hash_optional_string (some value) = 1 ∷ hash_string value
hash_optional_string none = 0 ∷ []

unfoldable pub hash_strings : List Text → List ℕ
unfolding hash_string
hash_strings [] = []
hash_strings (value ∷ rest) = hash_string value ++ hash_strings rest

unfoldable pub hash_targets : List AnswerTarget → List ℕ
unfolding hash_string hash_usize hash_strings
hash_targets [] = []
hash_targets (target ∷ rest) =
    hash_string target.id
    ++ hash_string target.canonical
    ++ hash_usize (length target.aliases)
    ++ hash_strings target.aliases
    ++ hash_targets rest

-- The loop of `cache_fingerprint`.
unfoldable pub hash_matches : List MemoryEntry → List ℕ
unfolding hash_string
hash_matches [] = []
hash_matches (entry ∷ rest) =
    hash_string entry.id ++ hash_string entry.target_id ++ hash_matches rest

module _ {F : Type 0} (ext : Externals F) where
  open ext use {sha256, to_bits}

  unfoldable pub hash_policy : ValidationPolicy F → List ℕ
  unfolding le_bytes
  hash_policy policy =
      le_bytes 8 (to_bits policy.accept_threshold)
      ++ le_bytes 8 (to_bits policy.review_threshold)
      ++ le_bytes 8 (to_bits policy.ambiguity_margin)

  unfoldable pub hash_round : Round F → List ℕ
  unfolding hash_string hash_usize hash_targets hash_policy
  hash_round round =
      hash_string round.id
      ++ hash_usize (length round.targets)
      ++ hash_targets round.targets
      ++ hash_policy round.policy

  unfoldable pub session_definition_fingerprint : StartSession F → List ℕ
  unfolding hash_string hash_round hash_optional_string
  session_definition_fingerprint request = sha256 (
      as_bytes (text_of "semantic-engine-session-v1")
      ++ hash_string request.session_id
      ++ hash_round request.round
      ++ hash_optional_string request.context_package_sha256)

  unfoldable pub memory_source_fingerprint : List ℕ → Text → Text → Text → Text → List ℕ
  unfolding hash_string
  memory_source_fingerprint key session_id round_id message_id target_id = sha256 (
      as_bytes (text_of "semantic-engine-operator-memory-v1")
      ++ key
      ++ hash_string session_id
      ++ hash_string round_id
      ++ hash_string message_id
      ++ hash_string target_id)

  unfoldable pub request_fingerprint : Round F → Submission → Option Text → List ℕ
  unfolding le_bytes hash_string hash_round hash_optional_string
  request_fingerprint round submission context_package_sha256 = sha256 (
      as_bytes (text_of "semantic-engine-request-v1")
      ++ hash_round round
      ++ hash_string submission.message_id
      ++ hash_string submission.participant_id
      ++ le_bytes 8 submission.source_sequence
      ++ hash_string submission.text
      ++ hash_optional_string context_package_sha256)

  unfoldable pub cache_fingerprint : Round F → Text → Option Text → List MemoryEntry → List ℕ
  unfolding hash_string hash_round hash_optional_string hash_usize hash_matches
  cache_fingerprint round submission_text context_package_sha256 memory_matches = sha256 (
      as_bytes (text_of "semantic-engine-cache-v1")
      ++ hash_round round
      ++ hash_string submission_text
      ++ hash_optional_string context_package_sha256
      ++ hash_usize (length memory_matches)
      ++ hash_matches memory_matches)
