-- ===== src/AuditStore/Record.antt =====
-- The operations of `AuditStore` in crates/semantic-engine-audit-store/src/lib.rs.
use semantic_engine.Common.{
  ℕ, zero, suc, Text, Bool, false, Option, none, some, List, [], ◌∷◌, ◌++◌, not, ◌&&◌, ◌||◌, ltb,
  leb, ◌==◌, ◌=t◌, if◌then◌else◌, length, retain, take,
}
use semantic_engine.Common.Results.{Result, ok, err, ◌>>=◌, ◌>>◌, guard, ok_or, map_err}
use semantic_engine.Common.Machine.{Io, statement}
use semantic_engine.Core.Libraries.{Libraries}
use semantic_engine.Core.Types.{Validation, OperatorResolution}
use semantic_engine.AuditStore.Types.{
  max_audit_page, RetentionPolicy, AuditEntry, AuditError, database, conflict, missing_validation,
  invalid_record, StoredValidation, ValidationRow, ResolutionRow, Tables, Externals,
}
use semantic_engine.AuditStore.Checks.{
  valid_identifier, same_decision, validate_validation, validate_resolution, now_ms, to_i64,
}
use semantic_engine.AuditStore.Operations.{
  Env, find_message, find_resolution, keep_validations, apply_retention, decode_rows, load_entry,
  stored_validation, stored_resolution, new_row, insert_validation,
}

abbrev run : Option Text → Result AuditError (Unit {0})
run = statement database

-- The order of `list_round`, and that of `recent`
unfoldable pub by_source : ValidationRow → ValidationRow → Bool
by_source a b =
    ltb a.source_sequence b.source_sequence
    || (a.source_sequence == b.source_sequence && leb a.sequence b.sequence)

unfoldable pub by_newest : ValidationRow → ValidationRow → Bool
by_newest a b = leb b.sequence a.sequence

module _ (le : ValidationRow → ValidationRow → Bool) where
  unfoldable pub insert_sorted : ValidationRow → List ValidationRow → List ValidationRow
  insert_sorted r [] = r ∷ []
  insert_sorted r (x ∷ xs) =
      let rest = insert_sorted r xs in if le r x then r ∷ x ∷ xs else x ∷ rest

  unfoldable pub sorted : List ValidationRow → List ValidationRow
  unfolding insert_sorted
  sorted [] = []
  sorted (r ∷ rs) = insert_sorted r (sorted rs)

-- Whether the resolution is of the stored validation
unfoldable pub is_of : {F : Type 0} → OperatorResolution → StoredValidation F → Bool
is_of resolution validation = not (
    not (validation.participant_id =t resolution.participant_id)
    || not (validation.source_sequence == resolution.source_sequence)
    || not (same_decision validation.decision resolution.original_decision))

-- The resolution that stands already must have the same content; otherwise one is inserted.
unfoldable pub put_resolution :
    Env → Tables → ℕ → Text → ℕ → Option ResolutionRow → Result AuditError Tables
unfolding to_i64
put_resolution env t sequence payload_json now (some existing) = do
  guard (existing.payload_json =t payload_json) conflict
  ok t
put_resolution env t sequence payload_json now none = do
  stamp ← to_i64 now
  run (env.io 3)
  ok (record t {
    resolutions =
        t.resolutions
        ++ record {
          validation_sequence = sequence;
          recorded_at_ms = now;
          payload_json = payload_json;
        }
          ∷ [];
  })

module _ (lib : Libraries) (ext : Externals lib.F64) (retention : RetentionPolicy) where
  -- `record_validation` in its transaction, by the row of the message
  unfoldable pub record_row :
      Env
      → Tables
      → Validation lib.F64
      → Text
      → ℕ
      → Option ValidationRow
      → Result AuditError (Tables × AuditEntry lib.F64)
  unfolding load_entry to_i64 new_row insert_validation apply_retention
  record_row env t validation payload_json now (some row) = do
    guard (row.payload_json =t payload_json) conflict
    entry ← load_entry ext (env.io 2) t row.sequence
    run (env.io 3)
    ok (t, entry)
  record_row env t validation payload_json now none = do
    source_sequence ← to_i64 validation.source_sequence
    stamp ← to_i64 now
    run (env.io 2)
    u ←
        apply_retention env.io retention now
          (insert_validation t (new_row t validation now payload_json))
    entry ← load_entry ext (env.io 5) u t.next_sequence
    run (env.io 6)
    ok (u, entry)

  unfoldable pub record_validation :
      Env
      → Tables
      → Validation lib.F64
      → Option Text
      → Result AuditError (Tables × AuditEntry lib.F64)
  unfolding validate_validation stored_validation now_ms find_message record_row
  record_validation env t validation context_package_sha256 = do
    validate_validation lib ext validation context_package_sha256
    payload_json ←
        map_err database
          (ext.encode_validation (stored_validation validation context_package_sha256))
    now ← now_ms ext.clock_message env.clock
    run (env.io 0)
    run (env.io 1)
    record_row env t validation payload_json now
        (find_message validation.round_id validation.message_id t.validations)

  unfoldable pub record_resolution :
      Env → Tables → OperatorResolution → Result AuditError (Tables × AuditEntry lib.F64)
  unfolding validate_resolution stored_resolution now_ms find_message is_of find_resolution
      put_resolution load_entry
  record_resolution env t resolution = do
    validate_resolution resolution
    payload_json ← map_err database (ext.encode_resolution (stored_resolution resolution))
    now ← now_ms ext.clock_message env.clock
    run (env.io 0)
    run (env.io 1)
    row ←
        ok_or (find_message resolution.round_id resolution.message_id t.validations)
          missing_validation
    validation ← map_err database (ext.decode_validation row.payload_json)
    guard (is_of resolution validation) conflict
    run (env.io 2)
    u ←
        put_resolution env t row.sequence payload_json now
          (find_resolution row.sequence t.resolutions)
    entry ← load_entry ext (env.io 4) u row.sequence
    run (env.io 5)
    ok (u, entry)

  unfoldable pub list_round :
      Option Text → Tables → Text → Result AuditError (List (AuditEntry lib.F64))
  unfolding valid_identifier decode_rows by_source sorted
  list_round answer t round_id = do
    guard (valid_identifier round_id) invalid_record
    run answer
    decode_rows ext t.resolutions
        (sorted by_source (retain (λ (r : ValidationRow). r.round_id =t round_id) t.validations))

  -- `recent` within a page: no row is read for none
  unfoldable pub newest : Option Text → Tables → ℕ → Result AuditError (List (AuditEntry lib.F64))
  unfolding decode_rows by_newest sorted
  newest answer t zero = ok []
  newest answer t (suc n) = do
    run answer
    decode_rows ext t.resolutions (take (suc n) (sorted by_newest t.validations))

  unfoldable pub recent : Option Text → Tables → ℕ → Result AuditError (List (AuditEntry lib.F64))
  unfolding newest
  recent answer t limit = do
    guard (not (ltb max_audit_page limit)) invalid_record
    newest answer t limit

-- A deletion commits by itself; the `VACUUM` that follows it may fail.
unfoldable pub vacuumed : Option Text → Tables → ℕ → Tables × Result AuditError ℕ
vacuumed answer t zero = (t, ok 0)
vacuumed answer t (suc n) = (t, run answer >> ok (suc n))

-- What follows a statement that ran
unfoldable pub deleted_after :
    Result AuditError (Unit {0})
    → Tables
    → Tables × Result AuditError ℕ
    → Tables × Result AuditError ℕ
deleted_after (err e) t done = (t, err e)
deleted_after (ok ran) t done = done

unfoldable pub delete_round : Io → Tables → Text → Tables × Result AuditError ℕ
unfolding valid_identifier keep_validations vacuumed deleted_after
delete_round io t round_id =
    deleted_after (guard (valid_identifier round_id) invalid_record >> run (io 0)) t (
      vacuumed (io 1) (keep_validations (λ r. not (r.round_id =t round_id)) t)
        (length (retain (λ (r : ValidationRow). r.round_id =t round_id) t.validations)))

unfoldable pub purge_all : Io → Tables → Tables × Result AuditError ℕ
unfolding keep_validations vacuumed deleted_after
purge_all io t =
    deleted_after (run (io 0)) t
      (vacuumed (io 1) (keep_validations (λ r. false) t) (length t.validations))
