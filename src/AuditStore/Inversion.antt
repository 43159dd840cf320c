-- ===== src/AuditStore/Inversion.antt =====
-- What `record_validation` and `record_resolution` of crates/semantic-engine-audit-store/src/lib.rs did
-- where they succeeded.
use semantic_engine.Common.{
  ℕ, Text, true, Option, none, some, ◌=t◌, ◌≡◌, subst, arith, inl, inr, Option-cases,
}
use semantic_engine.Common.Results.{
  map_err-eq-ok, ok_or-eq-ok, guard-eq-ok, ok-injective, guard, >>=-eq-ok, >>-eq-ok, ok,
}
use semantic_engine.Core.Libraries.{Libraries}
use semantic_engine.Core.Types.{Validation, OperatorResolution}
use semantic_engine.AuditStore.Types.{
  RetentionPolicy, AuditEntry, AuditError, StoredValidation, ValidationRow, Tables, Externals,
}
use semantic_engine.AuditStore.Checks.{validate_validation, validate_resolution, now_ms, to_i64}
use semantic_engine.AuditStore.Operations.{
  Env, find_message, find_sequence, find_resolution, apply_retention, decode_row, load_entry,
  stored_validation, stored_resolution, new_row, insert_validation,
}
use semantic_engine.AuditStore.Record.{
  record_row, record_validation, is_of, put_resolution, record_resolution,
}

pub load_entry-inv :
    {F : Type 0} (ext : Externals F) (answer : Option Text) (t : Tables) (sequence : ℕ)
    {entry : AuditEntry F}
    → load_entry ext answer t sequence ≡ ok entry
    → (row : ValidationRow) × (find_sequence sequence t.validations ≡ some row)
      × (decode_row ext row (find_resolution sequence t.resolutions) ≡ ok entry)
unfolding load_entry
load_entry-inv ext (some message) t sequence {entry} e = ground arith
load_entry-inv ext none t sequence {entry} e =
    elim (Option-cases (find_sequence sequence t.validations)) [
      | inl gone ↦ ground (arith, gone)
      | inr (row, found) ↦ (row, found, ground (arith, found))
    ]

-- What was loaded did not depend on how the engine came to give it.
pub load_entry-answered :
    {F : Type 0} (ext : Externals F) (answer : Option Text) (t : Tables) (sequence : ℕ)
    {entry : AuditEntry F}
    → load_entry ext answer t sequence ≡ ok entry
    → load_entry ext none t sequence ≡ ok entry
unfolding load_entry
load_entry-answered ext (some message) t sequence {entry} e = ground arith
load_entry-answered ext none t sequence {entry} e = e

pub validation-finite :
    (lib : Libraries) (ext : Externals lib.F64) (validation : Validation lib.F64)
    (context : Option Text)
    → validate_validation lib ext validation context ≡ ok tt
    → ext.is_finite (stored_validation validation context).score ≡ true
unfolding validate_validation stored_validation
validation-finite lib ext validation context checked = ground (arith, checked)

module _ (lib : Libraries) (ext : Externals lib.F64) (retention : RetentionPolicy) (env : Env)
    (t : Tables) where
  pub record_validation-inv :
      (validation : Validation lib.F64) (context : Option Text) {r : Tables × AuditEntry lib.F64}
      → record_validation lib ext retention env t validation context ≡ ok r
      → ((json : Text) × (now : ℕ) × (ext.encode_validation (stored_validation validation context)
            ≡ ok json)
          × (validate_validation lib ext validation context ≡ ok tt)
          × (record_row lib ext retention env t validation json now
                (find_message validation.round_id validation.message_id t.validations)
              ≡ ok r))
  unfolding record_validation
  record_validation-inv validation context {r} e =
      let (is_checked, e1) = >>-eq-ok (validate_validation lib ext validation context) _ e in
      let (json, written, e2) = >>=-eq-ok _ _ e1 in
      let (now, is_now, e3) = >>=-eq-ok (now_ms ext.clock_message env.clock) _ e2 in
      let (is_begun, e4) = >>-eq-ok _ _ e3 in
      let (is_selected, e5) = >>-eq-ok _ _ e4 in
      (json, now, map_err-eq-ok _ _ written, is_checked, e5)

  -- A message that is on record already
  pub record_row-again :
      (validation : Validation lib.F64) (json : Text) (now : ℕ) (row : ValidationRow)
      {r : Tables × AuditEntry lib.F64}
      → record_row lib ext retention env t validation json now (some row) ≡ ok r
      → (row.payload_json ≡ json) × (r.0 ≡ t) × (load_entry ext (env.io 2) t row.sequence ≡ ok r.1)
  unfolding record_row
  record_row-again validation json now row {r} e =
      let (is_same, e1) = >>-eq-ok (guard (row.payload_json =t json) AuditError.conflict) _ e in
      let (entry, loaded, e2) = >>=-eq-ok (load_entry ext (env.io 2) t row.sequence) _ e1 in
      (ground (arith, is_same), ground (arith, e2), ground (arith, e2, loaded))

  pub record_row-new :
      (validation : Validation lib.F64) (json : Text) (now : ℕ) {r : Tables × AuditEntry lib.F64}
      → record_row lib ext retention env t validation json now none ≡ ok r
      → (apply_retention env.io retention now (insert_validation t (new_row t validation now json))
          ≡ ok r.0)
        × (load_entry ext (env.io 5) r.0 t.next_sequence ≡ ok r.1)
  unfolding record_row
  record_row-new validation json now {r} e =
      let (source_sequence, is_source_sequence, e1) =
        >>=-eq-ok (to_i64 validation.source_sequence) _ e in
      let (stamp, is_stamp, e2) = >>=-eq-ok (to_i64 now) _ e1 in
      let (is_inserted, e3) = >>-eq-ok _ _ e2 in
      let (u, retained, e4) =
        >>=-eq-ok
          (apply_retention env.io retention now
            (insert_validation t (new_row t validation now json)))
          _ e3 in
      let (entry, loaded, e5) = >>=-eq-ok (load_entry ext (env.io 5) u t.next_sequence) _ e4 in
      let (committed, e6) = >>-eq-ok _ _ e5 in
      (
        subst
            (λ (x : Tables × AuditEntry lib.F64).
              apply_retention env.io retention now
                (insert_validation t (new_row t validation now json))
              ≡ ok x.0)
            (ok-injective _ _ e6) retained,
        subst
            (λ (x : Tables × AuditEntry lib.F64).
              load_entry ext (env.io 5) x.0 t.next_sequence ≡ ok x.1)
            (ok-injective _ _ e6) loaded,
      )

  pub record_resolution-inv :
      (resolution : OperatorResolution) {r : Tables × AuditEntry lib.F64}
      → record_resolution lib ext retention env t resolution ≡ ok r
      → ((json : Text) × (now : ℕ) × (row : ValidationRow) × (stored : StoredValidation lib.F64)
          × (ext.encode_resolution (stored_resolution resolution) ≡ ok json)
          × (find_message resolution.round_id resolution.message_id t.validations ≡ some row)
          × (ext.decode_validation row.payload_json ≡ ok stored)
          × (is_of resolution stored ≡ true)
          × (put_resolution env t row.sequence json now (find_resolution row.sequence t.resolutions)
              ≡ ok r.0)
          × (load_entry ext (env.io 4) r.0 row.sequence ≡ ok r.1))
  unfolding record_resolution
  record_resolution-inv resolution {r} e =
      let (is_checked, e1) = >>-eq-ok (validate_resolution resolution) _ e in
      let (json, written, e2) = >>=-eq-ok _ _ e1 in
      let (now, is_now, e3) = >>=-eq-ok (now_ms ext.clock_message env.clock) _ e2 in
      let (is_begun, e4) = >>-eq-ok _ _ e3 in
      let (is_selected, e5) = >>-eq-ok _ _ e4 in
      let (row, found, e6) = >>=-eq-ok _ _ e5 in
      let (stored, is_stored, e7) = >>=-eq-ok _ _ e6 in
      let (is_same, e8) = >>-eq-ok (guard (is_of resolution stored) AuditError.conflict) _ e7 in
      let (is_looked, e9) = >>-eq-ok _ _ e8 in
      let (u, put, e10) =
        >>=-eq-ok
          (put_resolution env t row.sequence json now (find_resolution row.sequence t.resolutions))
          _ e9 in
      let (entry, loaded, e11) = >>=-eq-ok (load_entry ext (env.io 4) u row.sequence) _ e10 in
      let (committed, e12) = >>-eq-ok _ _ e11 in
      (
        json,
        now,
        row,
        stored,
        map_err-eq-ok _ _ written,
        ok_or-eq-ok _ _ found,
        map_err-eq-ok _ _ is_stored,
        guard-eq-ok _ _ is_same,
        subst
            (λ (x : Tables × AuditEntry lib.F64).
              put_resolution env t row.sequence json now
                (find_resolution row.sequence t.resolutions)
              ≡ ok x.0)
            (ok-injective _ _ e12) put,
        subst
            (λ (x : Tables × AuditEntry lib.F64).
              load_entry ext (env.io 4) x.0 row.sequence ≡ ok x.1)
            (ok-injective _ _ e12) loaded,
      )
