-- ===== src/AuditStore/Types.antt =====
-- The data of crates/semantic-engine-audit-store/src/lib.rs. `F` is the type of scores.
use semantic_engine.Common.{ℕ, Text, Bool, true, Option, some, List, ◌≡◌}
use semantic_engine.Common.Results.{Result, ok}
use semantic_engine.Core.Types.{Decision, EvidenceKind, ValidationIssue}

abbrev pub max_retained_validations : ℕ
max_retained_validations = 1000000

abbrev pub max_retention_age_seconds : ℕ
max_retention_age_seconds = 315360000

abbrev pub max_audit_page : ℕ
max_audit_page = 1000

abbrev pub audit_schema_version : ℕ
audit_schema_version = 2

pub record RetentionPolicy : Type 0 where
  pub max_validations : ℕ
  pub max_age_seconds : Option ℕ

-- `RetentionPolicy::default`
abbrev pub default_retention : RetentionPolicy
default_retention = record { max_validations = 10000; max_age_seconds = some 2592000 }

pub record AuditValidation (F : Type 0) : Type 0 where
  pub sequence : ℕ
  pub recorded_at_ms : ℕ
  pub round_id : Text
  pub message_id : Text
  pub participant_id : Text
  pub source_sequence : ℕ
  pub context_package_sha256 : Option Text
  pub decision : Decision
  pub target_id : Option Text
  pub score : F
  pub evidence_kinds : List EvidenceKind
  pub issue : Option ValidationIssue

pub record AuditResolution : Type 0 where
  pub recorded_at_ms : ℕ
  pub original_decision : Decision
  pub final_decision : Decision
  pub target_id : Option Text
  pub note : Text

pub record AuditEntry (F : Type 0) : Type 0 where
  pub schema_version : ℕ
  pub validation : AuditValidation F
  pub resolution : Option AuditResolution

pub data AuditError : Type 0 where
  database : Text → AuditError
  conflict missing_validation invalid_record invalid_retention : AuditError

pub record StoredValidation (F : Type 0) : Type 0 where
  pub round_id : Text
  pub message_id : Text
  pub participant_id : Text
  pub source_sequence : ℕ
  pub context_package_sha256 : Option Text
  pub decision : Decision
  pub target_id : Option Text
  pub score : F
  pub evidence_kinds : List EvidenceKind
  pub issue : Option ValidationIssue

pub record StoredResolution : Type 0 where
  pub original_decision : Decision
  pub final_decision : Decision
  pub target_id : Option Text
  pub note : Text

-- The rows of `audit_validations` and of `audit_resolutions`
pub record ValidationRow : Type 0 where
  pub sequence : ℕ
  pub round_id : Text
  pub message_id : Text
  pub source_sequence : ℕ
  pub recorded_at_ms : ℕ
  pub payload_json : Text

pub record ResolutionRow : Type 0 where
  pub validation_sequence : ℕ
  pub recorded_at_ms : ℕ
  pub payload_json : Text

-- The two tables, and the number that `AUTOINCREMENT` gives to the next validation
pub record Tables : Type 0 where
  pub validations : List ValidationRow
  pub resolutions : List ResolutionRow
  pub next_sequence : ℕ

-- What the store calls: `f64::is_finite`, the message of a clock before the epoch, and `serde_json`
-- on the two payloads, which fails with a message.
pub record Externals (F : Type 0) : Type 0 where
  pub is_finite : F → Bool
  pub clock_message : Text
  pub encode_validation : StoredValidation F → Result Text Text
  pub decode_validation : Text → Result Text (StoredValidation F)
  pub encode_resolution : StoredResolution → Result Text Text
  pub decode_resolution : Text → Result Text StoredResolution

-- The validation with its score as `f` gives it
abbrev pub map_score : {F : Type 0} → (F → F) → StoredValidation F → StoredValidation F
map_score f p = record p { score = f p.score }

-- `serde_json` reads back what it wrote, but for a score: without its feature `float_roundtrip`, the
-- digits of a finite number may be read as a neighbour of it, `reread` of the number.
pub record RoundTrips {F : Type 0} (ext : Externals F) : Type 0 where
  pub reread : F → F
  pub decode_encode_validation :
      (p : StoredValidation F) (json : Text)
      → ext.is_finite p.score ≡ true
      → ext.encode_validation p ≡ ok json
      → ext.decode_validation json ≡ ok (map_score reread p)
  pub decode_encode_resolution :
      (p : StoredResolution) (json : Text)
      → ext.encode_resolution p ≡ ok json
      → ext.decode_resolution json ≡ ok p
