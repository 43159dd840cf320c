-- ===== src/AuditStore/Operations.antt =====
-- `AuditStore` of crates/semantic-engine-audit-store/src/lib.rs. An operation in a transaction gives
-- the tables after it or an error, which leaves the tables as they were.
use semantic_engine.Common.{
  ℕ, Text, Bool, Option, none, some, List, [], ◌∷◌, ◌++◌, not, ◌&&◌, ◌+◌, ◌-◌, ◌*◌, ltb, ◌==◌, ◌=t◌,
  length, any, find, retain, map,
}
use semantic_engine.Common.Results.{Result, ok, ◌>>=◌, ◌>>◌, guard, ok_or, map_err}
use semantic_engine.Common.Machine.{u64_max, Io, statement, Clock}
use semantic_engine.Core.Types.{Validation, OperatorResolution, Evidence}
use semantic_engine.AuditStore.Types.{
  audit_schema_version, RetentionPolicy, AuditResolution, AuditEntry, AuditError, database,
  invalid_retention, StoredValidation, StoredResolution, ValidationRow, ResolutionRow, Tables,
  Externals,
}
use semantic_engine.AuditStore.Checks.{to_i64, missing_database_row}

-- What an operation reads from outside: the answers of the engine to its statements, and the clock.
pub record Env : Type 0 where
  pub io : Io
  pub clock : Clock

abbrev run : Option Text → Result AuditError (Unit {0})
run = statement database

-- The row of a message of a round, and the rows of a sequence number
unfoldable pub find_message : Text → Text → List ValidationRow → Option ValidationRow
find_message round_id message_id =
    find (λ (r : ValidationRow). r.round_id =t round_id && r.message_id =t message_id)

unfoldable pub find_sequence : ℕ → List ValidationRow → Option ValidationRow
find_sequence sequence = find (λ (r : ValidationRow). r.sequence == sequence)

unfoldable pub find_resolution : ℕ → List ResolutionRow → Option ResolutionRow
find_resolution sequence = find (λ (r : ResolutionRow). r.validation_sequence == sequence)

-- A `DELETE` on `audit_validations`; the resolutions of the deleted rows go with them.
unfoldable pub keep_validations : (ValidationRow → Bool) → Tables → Tables
unfolding find_sequence
keep_validations keep t =
    let kept = retain keep t.validations in
    record t {
      validations = kept;
      resolutions =
          retain
            (λ (r : ResolutionRow).
              any (λ (v : ValidationRow). v.sequence == r.validation_sequence) kept)
            t.resolutions;
    }

-- How many rows have a greater sequence number
unfoldable pub newer : ℕ → List ValidationRow → ℕ
newer sequence rows = length (retain (λ (r : ValidationRow). ltb sequence r.sequence) rows)

-- `saturating_sub` is the subtraction of ℕ.
unfoldable pub apply_retention : Io → RetentionPolicy → ℕ → Tables → Result AuditError Tables
unfolding keep_validations newer to_i64
apply_retention io retention current_time_ms t = do
  u ← elim retention.max_age_seconds [
    | none ↦ ok t
    | some max_age_seconds ↦ do
      guard (not (ltb u64_max (max_age_seconds * 1000))) invalid_retention
      let cutoff = current_time_ms - max_age_seconds * 1000
      stamp ← to_i64 cutoff
      run (io 3)
      ok (keep_validations (λ r. not (ltb r.recorded_at_ms cutoff)) t)
  ]
  count ← to_i64 retention.max_validations
  run (io 4)
  ok (keep_validations (λ r. ltb (newer r.sequence u.validations) retention.max_validations) u)

unfoldable pub entry_of :
    {F : Type 0} → ValidationRow → StoredValidation F → Option AuditResolution → AuditEntry F
entry_of row validation resolution = record {
  schema_version = audit_schema_version;
  validation = record {
    sequence = row.sequence;
    recorded_at_ms = row.recorded_at_ms;
    round_id = validation.round_id;
    message_id = validation.message_id;
    participant_id = validation.participant_id;
    source_sequence = validation.source_sequence;
    context_package_sha256 = validation.context_package_sha256;
    decision = validation.decision;
    target_id = validation.target_id;
    score = validation.score;
    evidence_kinds = validation.evidence_kinds;
    issue = validation.issue;
  };
  resolution = resolution;
}

unfoldable pub stored_validation : {F : Type 0} → Validation F → Option Text → StoredValidation F
stored_validation validation context_package_sha256 = record {
  round_id = validation.round_id;
  message_id = validation.message_id;
  participant_id = validation.participant_id;
  source_sequence = validation.source_sequence;
  context_package_sha256 = context_package_sha256;
  decision = validation.decision;
  target_id = validation.target_id;
  score = validation.score;
  evidence_kinds = map (λ (item : Evidence). item.kind) validation.evidence;
  issue = validation.issue;
}

unfoldable pub stored_resolution : OperatorResolution → StoredResolution
stored_resolution resolution = record {
  original_decision = resolution.original_decision;
  final_decision = resolution.final_decision;
  target_id = resolution.target_id;
  note = resolution.note;
}

-- The row of a validation with the next sequence number
unfoldable pub new_row : {F : Type 0} → Tables → Validation F → ℕ → Text → ValidationRow
new_row t validation now payload_json = record {
  sequence = t.next_sequence;
  round_id = validation.round_id;
  message_id = validation.message_id;
  source_sequence = validation.source_sequence;
  recorded_at_ms = now;
  payload_json = payload_json;
}

unfoldable pub insert_validation : Tables → ValidationRow → Tables
insert_validation t row = record t {
  validations = t.validations ++ row ∷ [];
  next_sequence = t.next_sequence + 1;
}

module _ {F : Type 0} (ext : Externals F) where
  unfoldable pub decode_resolution_row :
      Option ResolutionRow → Result AuditError (Option AuditResolution)
  decode_resolution_row none = ok none
  decode_resolution_row (some row) = do
    stored ← map_err database (ext.decode_resolution row.payload_json)
    ok (
        some (record {
          recorded_at_ms = row.recorded_at_ms;
          original_decision = stored.original_decision;
          final_decision = stored.final_decision;
          target_id = stored.target_id;
          note = stored.note;
        }))

  -- `decode_row` of a row and of the resolution that the join finds for it
  unfoldable pub decode_row :
      ValidationRow → Option ResolutionRow → Result AuditError (AuditEntry F)
  unfolding decode_resolution_row entry_of
  decode_row row resolution_row = do
    validation ← map_err database (ext.decode_validation row.payload_json)
    resolution ← decode_resolution_row resolution_row
    ok (entry_of row validation resolution)

  unfoldable pub decode_rows :
      List ResolutionRow → List ValidationRow → Result AuditError (List (AuditEntry F))
  unfolding decode_row find_resolution
  decode_rows resolutions [] = ok []
  decode_rows resolutions (row ∷ rows) = do
    entry ← decode_row row (find_resolution row.sequence resolutions)
    entries ← decode_rows resolutions rows
    ok (entry ∷ entries)

  -- `load_entry`, and the row that its callers expect
  unfoldable pub load_entry : Option Text → Tables → ℕ → Result AuditError (AuditEntry F)
  unfolding find_sequence find_resolution decode_row missing_database_row
  load_entry answer t sequence = do
    run answer
    row ← ok_or (find_sequence sequence t.validations) missing_database_row
    decode_row row (find_resolution sequence t.resolutions)
