-- ===== src/AuditStore/Checks.antt =====
-- The validations of crates/semantic-engine-audit-store/src/lib.rs.
use semantic_engine.Common.{
  ℕ, Text, Bool, true, false, Option, none, some, ◌++◌, not, ◌&&◌, ◌||◌, ltb, leb, ◌==◌, length,
  is_empty, all, any, byte_len, is_control, is_ascii_hexdigit, text_of, if◌then◌else◌,
}
use semantic_engine.Common.Results.{Result, ok, err, guard}
use semantic_engine.Common.Machine.{i64_max, u64_max, to_i64_or, Clock, millis, before_epoch}
use semantic_engine.Core.Libraries.{Libraries, in_unit}
use semantic_engine.Core.Limits.{max_identifier_chars, max_targets_per_round}
use semantic_engine.Core.Types.{Decision, Validation, OperatorResolution}
use semantic_engine.Core.Resolve.{max_resolution_note_chars}
use semantic_engine.AuditStore.Types.{
  max_retained_validations, max_retention_age_seconds, RetentionPolicy, AuditError, database,
  conflict, missing_validation, invalid_record, invalid_retention, Externals,
}

-- `is_some_and` and `is_none_or` of an option
abbrev pub is_some_and {ℓ} : {A : Type ℓ} → (A → Bool) → Option A → Bool
is_some_and p none = false
is_some_and p (some a) = p a

abbrev pub is_none_or {ℓ} : {A : Type ℓ} → (A → Bool) → Option A → Bool
is_none_or p none = true
is_none_or p (some a) = p a

unfoldable pub validate_retention : RetentionPolicy → Result AuditError (Unit {0})
validate_retention retention =
    guard
      (not (
        retention.max_validations == 0
        || ltb max_retained_validations retention.max_validations
        || is_some_and (λ age. age == 0 || ltb max_retention_age_seconds age)
            retention.max_age_seconds))
      invalid_retention

unfoldable pub valid_identifier : Text → Bool
valid_identifier value =
    not (is_empty value) && leb (length value) max_identifier_chars && not (any is_control value)

abbrev pub same_decision : Decision → Decision → Bool
same_decision Decision.accepted Decision.accepted = true
same_decision Decision.rejected Decision.rejected = true
same_decision Decision.abstained Decision.abstained = true
same_decision _ _ = false

-- `target_is_valid` of a validation, and of a resolution
unfoldable pub target_is_valid : Decision → Option Text → Bool
unfolding valid_identifier
target_is_valid Decision.accepted target_id = is_some_and valid_identifier target_id
target_is_valid Decision.rejected target_id = is_none_or (λ value. false) target_id
target_is_valid Decision.abstained target_id = is_none_or valid_identifier target_id

unfoldable pub final_target_is_valid : Decision → Option Text → Bool
unfolding valid_identifier
final_target_is_valid Decision.accepted target_id = is_some_and valid_identifier target_id
final_target_is_valid Decision.rejected target_id = is_none_or (λ value. false) target_id
final_target_is_valid Decision.abstained target_id = false

-- `value.len() != 64 || !value.bytes().all(|byte| byte.is_ascii_hexdigit())`: only ASCII
-- characters have bytes that are ASCII.
unfoldable pub is_bad_digest : Text → Bool
is_bad_digest value = not (byte_len value == 64) || not (all is_ascii_hexdigit value)

unfoldable pub validate_validation :
    (lib : Libraries)
    → Externals lib.F64
    → Validation lib.F64
    → Option Text
    → Result AuditError (Unit {0})
unfolding in_unit valid_identifier target_is_valid is_bad_digest
validate_validation lib ext validation context_package_sha256 =
    guard
      (not (
        not (valid_identifier validation.round_id)
        || not (valid_identifier validation.message_id)
        || not (valid_identifier validation.participant_id)
        || ltb i64_max validation.source_sequence
        || not (ext.is_finite validation.score)
        || not (in_unit lib validation.score)
        || ltb max_targets_per_round (length validation.evidence)
        || not (target_is_valid validation.decision validation.target_id)
        || is_some_and
            (λ issue.
              not (same_decision validation.decision Decision.rejected)
              || not (is_empty validation.evidence))
            validation.issue
        || is_some_and is_bad_digest context_package_sha256))
      invalid_record

unfoldable pub validate_resolution : OperatorResolution → Result AuditError (Unit {0})
unfolding valid_identifier final_target_is_valid
validate_resolution resolution =
    guard
      (not (
        not (valid_identifier resolution.round_id)
        || not (valid_identifier resolution.message_id)
        || not (valid_identifier resolution.participant_id)
        || ltb i64_max resolution.source_sequence
        || ltb max_resolution_note_chars (length resolution.note)
        || not (final_target_is_valid resolution.final_decision resolution.target_id)))
      invalid_record

unfoldable pub now_ms : Text → Clock → Result AuditError ℕ
now_ms message before_epoch = err (database message)
now_ms message (millis n) = if ltb u64_max n then err invalid_record else ok n

unfoldable pub to_i64 : ℕ → Result AuditError ℕ
to_i64 = to_i64_or invalid_record

unfoldable pub missing_database_row : AuditError
missing_database_row = database (text_of "audit database contains an inconsistent row")

-- `impl Display for AuditError`
unfoldable pub audit_message : AuditError → Text
audit_message (database message) = text_of "audit database error: " ++ message
audit_message conflict = text_of "audit identity already has different content"
audit_message missing_validation = text_of "audit validation does not exist"
audit_message invalid_record = text_of "audit record is invalid"
audit_message invalid_retention = text_of "audit retention policy is invalid"
