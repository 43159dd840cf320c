-- ===== src/AuditStore/RoundTrip.antt =====
-- What `record_validation` of crates/semantic-engine-audit-store/src/lib.rs puts on record, and what a
-- further delivery of the same message gets.
use semantic_engine.Common.{
  ℕ, Text, true, false, Option, none, some, List, [], ◌∷◌, ◌&&◌, ◌<◌, ltb, ◌==◌, ◌=t◌, any, ◌≡◌,
  ◌≢◌, refl, sym, ◌∙◌, ap, subst, arith, All,
}
use semantic_engine.Common.Results.{ok, ok-injective}
use semantic_engine.Common.Machine.{i64_max, millis}
use semantic_engine.Core.Libraries.{Libraries}
use semantic_engine.Core.Types.{Validation}
use semantic_engine.AuditStore.Types.{
  RetentionPolicy, AuditEntry, StoredValidation, ValidationRow, ResolutionRow, Tables, Externals,
  RoundTrips, map_score,
}
use semantic_engine.AuditStore.Checks.{validate_retention, validate_validation, now_ms, to_i64}
use semantic_engine.AuditStore.Operations.{
  Env, find_message, find_sequence, find_resolution, apply_retention, decode_row, entry_of,
  load_entry, stored_validation, new_row, insert_validation,
}
use semantic_engine.AuditStore.Record.{record_row, record_validation}
use semantic_engine.AuditStore.Rows.{find_message-append, find_sequence-append, newer-append}
use semantic_engine.AuditStore.Retention.{
  IsLinked, IsSound, apply_retention-runs, find-apply_retention, find_resolution-apply_retention,
}
use semantic_engine.AuditStore.Inversion.{
  load_entry-answered, record_validation-inv, record_row-again, record_row-new, validation-finite,
}

-- The engine answers, and the clock gives a time that the tables can hold.
pub record IsUp (env : Env) (now : ℕ) : Type 0 where
  pub answers : (k : ℕ) → env.io k ≡ none
  pub clock : env.clock ≡ millis now
  pub holds_now : ltb i64_max now ≡ false

any-below :
    (n sequence : ℕ) (rows : List ValidationRow)
    → All (λ (r : ValidationRow). r.sequence < n) rows
    → any (λ (v : ValidationRow). v.sequence == sequence) rows ≡ true
    → sequence < n
any-below n sequence [] below h = cc
any-below n sequence (r ∷ rs) (less, below) h = ground (arith, less, any-below n sequence rs below)

-- The next number has no resolution.
find_resolution-next :
    (n : ℕ) (rows : List ValidationRow) (resolutions : List ResolutionRow)
    → All (λ (r : ValidationRow). r.sequence < n) rows
    → All (IsLinked rows) resolutions
    → find_resolution n resolutions ≡ none
unfolding find_resolution
find_resolution-next n rows [] below linked = refl
find_resolution-next n rows (r ∷ rs) below (link, linked) = ground (
  arith,
  any-below n r.validation_sequence rows below link,
  find_resolution-next n rows rs below linked,
)

module _ (lib : Libraries) (ext : Externals lib.F64) where
  validation-fits :
      (validation : Validation lib.F64) (context : Option Text)
      → validate_validation lib ext validation context ≡ ok tt
      → to_i64 validation.source_sequence ≡ ok validation.source_sequence
  unfolding validate_validation to_i64
  validation-fits validation context checked = ground (arith, checked)

  -- `record_validation` of a valid validation works on the row of its message.
  record_validation-row :
      (retention : RetentionPolicy) (env : Env) (t : Tables) (validation : Validation lib.F64)
      (context : Option Text) (json : Text) (now : ℕ)
      → validate_validation lib ext validation context ≡ ok tt
      → ext.encode_validation (stored_validation validation context) ≡ ok json
      → now_ms ext.clock_message env.clock ≡ ok now
      → env.io 0 ≡ none
      → env.io 1 ≡ none
      → record_validation lib ext retention env t validation context
        ≡ record_row lib ext retention env t validation json now
            (find_message validation.round_id validation.message_id t.validations)
  unfolding record_validation record_row
  record_validation-row retention env t validation context json now checked written is_now up up' =
      rw (checked, record_validation, written, is_now, up, up') refl

module _ (lib : Libraries) (ext : Externals lib.F64) (laws : RoundTrips ext)
    (retention : RetentionPolicy) (valid : validate_retention retention ≡ ok tt) (t : Tables)
    (sound : IsSound ext t) (validation : Validation lib.F64) (context : Option Text) (json : Text)
    (now : ℕ) (fresh : find_message validation.round_id validation.message_id t.validations ≡ none)
    (written : ext.encode_validation (stored_validation validation context) ≡ ok json) where
  -- The new row is in the tables after the retention, without a resolution.
  module _ {u : Tables} (env : Env)
      (retained : apply_retention env.io retention now
          (insert_validation t (new_row t validation now json))
        ≡ ok u) where
    new_row-sequence :
        find_sequence t.next_sequence u.validations ≡ some (new_row t validation now json)
    unfolding find_sequence insert_validation new_row
    new_row-sequence =
        find-apply_retention (λ (r : ValidationRow). r.sequence == t.next_sequence) env.io retention
          now _ valid retained
          (find_sequence-append t.validations (new_row t validation now json) sound.below) refl
          (newer-append t.validations (new_row t validation now json) sound.below)

    new_row-message :
        find_message validation.round_id validation.message_id u.validations
        ≡ some (new_row t validation now json)
    unfolding find_message insert_validation new_row
    new_row-message =
        find-apply_retention
          (λ (r : ValidationRow).
            r.round_id =t validation.round_id && r.message_id =t validation.message_id)
          env.io retention now _ valid retained
          (ground (
            arith,
            fresh,
            find_message-append validation.round_id validation.message_id t.validations
                (new_row t validation now json),
          ))
          refl (newer-append t.validations (new_row t validation now json) sound.below)

    load_entry-new :
        (answer : Option Text)
        → validate_validation lib ext validation context ≡ ok tt
        → answer ≡ none
        → load_entry ext answer u t.next_sequence
          ≡ ok (
              entry_of
                (new_row t validation now json)
                (map_score laws.reread (stored_validation validation context))
                none)
    unfolding load_entry decode_row new_row insert_validation
    load_entry-new answer checked up =
        let unresolved : find_resolution t.next_sequence u.resolutions ≡ none =
          find_resolution-apply_retention env.io retention now _ t.next_sequence retained (
            find_resolution-next t.next_sequence t.validations t.resolutions sound.below
              sound.linked) in
        ground (
          arith,
          up,
          new_row-sequence,
          unresolved,
          laws.decode_encode_validation (stored_validation validation context) json
              (validation-finite lib ext validation context checked) written,
        )

  -- With a valid policy and the engine up, a valid validation of a message that is not on record is
  -- recorded, and the answer is its entry: the next number, the time, every field of the validation,
  -- with the score as `serde_json` reads it back, and no resolution.
  pub record_validation-records :
      (env : Env)
      → IsUp env now
      → validate_validation lib ext validation context ≡ ok tt
      → (u : Tables) × (record_validation lib ext retention env t validation context
          ≡ ok (
            u,
            entry_of
                (new_row t validation now json)
                (map_score laws.reread (stored_validation validation context))
                none,
          ))
  unfolding record_row to_i64 now_ms
  record_validation-records env up checked =
      let (u, retained) =
        apply_retention-runs env.io retention now
          (insert_validation t (new_row t validation now json)) valid up.holds_now (up.answers 3)
          (up.answers 4) in
      (
        u,
        record_validation-row lib ext retention env t validation context json now checked written
              (ground (arith, up.clock, up.holds_now)) (up.answers 0) (up.answers 1)
            ∙ ap (record_row lib ext retention env t validation json now) fresh
            ∙ rw
                (
                  validation-fits lib ext validation context checked,
                  record_row,
                  up.holds_now,
                  up.answers 2,
                  retained,
                  load_entry-new env retained (env.io 5) checked (up.answers 5),
                  up.answers 6,
                )
                refl,
      )

module _ (lib : Libraries) (ext : Externals lib.F64) (laws : RoundTrips ext)
    (retention : RetentionPolicy) (valid : validate_retention retention ≡ ok tt) where
  -- After a validation was recorded, its row stands in the tables with its payload, and its entry is
  -- the one that was answered.
  record_row-found :
      (env : Env) (t : Tables) (validation : Validation lib.F64) (context : Option Text)
      (json : Text) (now : ℕ) (existing : Option ValidationRow) {u : Tables}
      {entry : AuditEntry lib.F64}
      → IsSound ext t
      → find_message validation.round_id validation.message_id t.validations ≡ existing
      → ext.encode_validation (stored_validation validation context) ≡ ok json
      → record_row lib ext retention env t validation json now existing ≡ ok (u, entry)
      → ((row : ValidationRow) × (find_message validation.round_id validation.message_id
              u.validations
            ≡ some row)
          × (row.payload_json ≡ json)
          × (load_entry ext none u row.sequence ≡ ok entry))
  unfolding new_row
  record_row-found env t validation context json now (some row) {u} {entry} sound found written e =
      let (same, same_t, loaded) =
        record_row-again lib ext retention env t validation json now row e in
      (
        row,
        rw same_t found,
        same,
        rw same_t (load_entry-answered ext (env.io 2) t row.sequence loaded),
      )
  record_row-found env t validation context json now none {u} {entry} sound fresh written e =
      let (retained, loaded) = record_row-new lib ext retention env t validation json now e in
      (
        new_row t validation now json,
        new_row-message lib ext laws retention valid t sound validation context json now fresh
            written env retained,
        refl,
        load_entry-answered ext (env.io 5) u t.next_sequence loaded,
      )

  -- What is on record after a validation was recorded is read back as its content, but for the score.
  pub record_validation-found :
      (env : Env) (t : Tables) (validation : Validation lib.F64) (context : Option Text)
      {r : Tables × AuditEntry lib.F64}
      → IsSound ext t
      → record_validation lib ext retention env t validation context ≡ ok r
      → (row : ValidationRow) × (find_message validation.round_id validation.message_id
            r.0.validations
          ≡ some row)
        × (ext.decode_validation row.payload_json
            ≡ ok (map_score laws.reread (stored_validation validation context)))
  record_validation-found env t validation context {r} sound e =
      let (json, now, written, checked, is_row) =
        record_validation-inv lib ext retention env t validation context e in
      let (row, found, same, loaded) =
        record_row-found env t validation context json now _ sound refl written is_row in
      (
        row,
        found,
        laws.decode_encode_validation (stored_validation validation context) row.payload_json
            (validation-finite lib ext validation context checked) (rw same written),
      )

  encode_validation-injective :
      (p q : StoredValidation lib.F64) (json : Text)
      → ext.is_finite p.score ≡ true
      → ext.is_finite q.score ≡ true
      → ext.encode_validation p ≡ ok json
      → ext.encode_validation q ≡ ok json
      → map_score laws.reread p ≡ map_score laws.reread q
  encode_validation-injective p q json fp fq hp hq = ok-injective _ _ (
      sym (laws.decode_encode_validation p json fp hp) ∙ laws.decode_encode_validation q json fq hq)

  record_row-same :
      (later : Env) (u : Tables) (validation : Validation lib.F64) (json : Text) (now : ℕ)
      (row : ValidationRow) {entry : AuditEntry lib.F64}
      → row.payload_json ≡ json
      → load_entry ext none u row.sequence ≡ ok entry
      → later.io 2 ≡ none
      → later.io 3 ≡ none
      → record_row lib ext retention later u validation json now (some row) ≡ ok (u, entry)
  unfolding record_row
  record_row-same later u validation json now row {entry} same loaded up up' =
      ground (arith, same, up, up', loaded)

  -- What was recorded again had the content of the row.
  record_validation-content :
      (later : Env) (u : Tables) (other : Validation lib.F64) (context : Option Text)
      (row : ValidationRow) {r : Tables × AuditEntry lib.F64}
      → find_message other.round_id other.message_id u.validations ≡ some row
      → record_validation lib ext retention later u other context ≡ ok r
      → (ext.encode_validation (stored_validation other context) ≡ ok row.payload_json)
        × (validate_validation lib ext other context ≡ ok tt)
  record_validation-content later u other context row {r} found again =
      let (json, then, written, checked, is_row) =
        record_validation-inv lib ext retention later u other context again in
      let (same, same_u, loaded) = record_row-again lib ext retention later u other json then row (
        subst (λ existing. record_row lib ext retention later u other json then existing ≡ ok r)
          found is_row) in
      (rw same written, checked)

  -- A recording can be repeated: directly after a validation was recorded, and whatever the time then,
  -- recording the same validation again with the engine up gives the same entry and changes nothing,
  -- and a validation of the same message whose content is read back differently is refused.
  pub record_validation_once :
      (env later : Env) (t : Tables) (validation : Validation lib.F64) (context : Option Text)
      (now : ℕ) {u : Tables} {entry : AuditEntry lib.F64}
      → IsSound ext t
      → record_validation lib ext retention env t validation context ≡ ok (u, entry)
      → IsUp later now
      → ((record_validation lib ext retention later u validation context ≡ ok (u, entry))
          × ((other : Validation lib.F64) (its_context : Option Text)
              → other.round_id ≡ validation.round_id
              → other.message_id ≡ validation.message_id
              → map_score laws.reread (stored_validation other its_context)
                ≢ map_score laws.reread (stored_validation validation context)
              → (r : Tables × AuditEntry lib.F64)
              → record_validation lib ext retention later u other its_context ≢ ok r))
  unfolding record_row now_ms
  record_validation_once env later t validation context now {u} {entry} sound e up =
      let (json, then, written, checked, is_row) =
        record_validation-inv lib ext retention env t validation context e in
      let (row, found, same, loaded) =
        record_row-found env t validation context json then _ sound refl written is_row in
      (
        record_validation-row lib ext retention later u validation context json now checked written
              (ground (arith, up.clock, up.holds_now)) (up.answers 0) (up.answers 1)
            ∙ ap (record_row lib ext retention later u validation json now) found
            ∙ record_row-same later u validation json now row same loaded (up.answers 2)
                (up.answers 3),
        λ other its_context same_round same_message differs r again.
            let (again_written, again_checked) =
              record_validation-content later u other its_context row
                (rw (same_round, same_message) found) again in
            differs (
              encode_validation-injective _ _ row.payload_json
                (validation-finite lib ext other its_context again_checked)
                (validation-finite lib ext validation context checked) again_written
                (rw same written)),
      )
