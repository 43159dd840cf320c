-- ===== src/AuditStore/Resolutions.antt =====
-- What `record_resolution` of crates/semantic-engine-audit-store/src/lib.rs puts on record.
use semantic_engine.Common.{
  ℕ, Text, true, Option, none, some, List, [], ◌∷◌, ◌++◌, ◌≡◌, ◌≢◌, refl, sym, ◌∙◌, subst, arith,
  inl, inr,
}
use semantic_engine.Common.Results.{ok, ok-injective}
use semantic_engine.Core.Libraries.{Libraries}
use semantic_engine.Core.Types.{OperatorResolution}
use semantic_engine.AuditStore.Types.{
  RetentionPolicy, AuditEntry, AuditResolution, StoredValidation, ValidationRow, ResolutionRow,
  Tables, Externals, RoundTrips,
}
use semantic_engine.AuditStore.Operations.{
  Env, find_message, find_sequence, find_resolution, decode_row, decode_resolution_row, entry_of,
  load_entry, stored_resolution,
}
use semantic_engine.AuditStore.Record.{is_of, put_resolution, record_resolution}
use semantic_engine.AuditStore.Rows.{find_message-sequence}
use semantic_engine.AuditStore.Retention.{IsSound}
use semantic_engine.AuditStore.Inversion.{load_entry-answered, record_resolution-inv}
use semantic_engine.AuditStore.Invariant.{put_resolution-inv}

some-injective {ℓ} : {A : Type ℓ} {a b : A} → some a ≡ some b → a ≡ b
some-injective e = ground (arith, e)

find_resolution-append :
    (sequence : ℕ) (rs : List ResolutionRow) (row : ResolutionRow)
    → find_resolution sequence rs ≡ none
    → row.validation_sequence ≡ sequence
    → find_resolution sequence (rs ++ row ∷ []) ≡ some row
unfolding find_resolution
find_resolution-append sequence [] row gone e = ground arith
find_resolution-append sequence (r ∷ rs) row gone e =
    ground (arith, find_resolution-append sequence rs row)

-- The resolution stands in the tables after it was put there, and no validation changed.
put_resolution-found :
    (env : Env) (t : Tables) (sequence : ℕ) (json : Text) (now : ℕ) {u : Tables}
    → put_resolution env t sequence json now (find_resolution sequence t.resolutions) ≡ ok u
    → (r : ResolutionRow) × (find_resolution sequence u.resolutions ≡ some r)
      × (r.payload_json ≡ json)
      × (u.validations ≡ t.validations)
put_resolution-found env t sequence json now {u} put =
    elim (put_resolution-inv env t sequence json now (find_resolution sequence t.resolutions) put) [
      | inl (r, found, same, same_t) ↦ rw same_t (r, found, same, refl)
      | inr (fresh, now_u) ↦ rw now_u (
        _,
        find_resolution-append sequence t.resolutions
            (record { validation_sequence = sequence; recorded_at_ms = now; payload_json = json })
            fresh refl,
        refl,
        refl,
      )
    ]

-- The resolution of an entry
abbrev pub resolved : OperatorResolution → ℕ → AuditResolution
resolved resolution now = record {
  recorded_at_ms = now;
  original_decision = resolution.original_decision;
  final_decision = resolution.final_decision;
  target_id = resolution.target_id;
  note = resolution.note;
}

module _ (lib : Libraries) (ext : Externals lib.F64) (laws : RoundTrips ext)
    (retention : RetentionPolicy) where
  load_entry-resolved :
      (u : Tables) (row : ValidationRow) (stored : StoredValidation lib.F64) (r : ResolutionRow)
      (resolution : OperatorResolution) {entry : AuditEntry lib.F64}
      → find_sequence row.sequence u.validations ≡ some row
      → find_resolution row.sequence u.resolutions ≡ some r
      → ext.decode_validation row.payload_json ≡ ok stored
      → ext.decode_resolution r.payload_json ≡ ok (stored_resolution resolution)
      → load_entry ext none u row.sequence ≡ ok entry
      → entry ≡ entry_of row stored (some (resolved resolution r.recorded_at_ms))
  unfolding load_entry decode_row decode_resolution_row stored_resolution
  load_entry-resolved u row stored r resolution {entry} found in_u is_stored is_resolution loaded =
      ok-injective _ _ (sym loaded ∙ rw (found, load_entry, in_u, is_stored, is_resolution) refl)

  -- What is on record after a resolution was recorded
  record_resolution-found :
      (env : Env) (t : Tables) (resolution : OperatorResolution) {u : Tables}
      {entry : AuditEntry lib.F64}
      → IsSound ext t
      → record_resolution lib ext retention env t resolution ≡ ok (u, entry)
      → ((row : ValidationRow) × (stored : StoredValidation lib.F64) × (r : ResolutionRow)
          × (find_message resolution.round_id resolution.message_id u.validations ≡ some row)
          × (ext.decode_validation row.payload_json ≡ ok stored)
          × (is_of resolution stored ≡ true)
          × (find_resolution row.sequence u.resolutions ≡ some r)
          × (ext.encode_resolution (stored_resolution resolution) ≡ ok r.payload_json)
          × (load_entry ext none u row.sequence ≡ ok entry)
          × (entry ≡ entry_of row stored (some (resolved resolution r.recorded_at_ms))))
  record_resolution-found env t resolution {u} {entry} sound e =
      let (json, now, row, stored, written, found, is_stored, same, put, loaded) =
        record_resolution-inv lib ext retention env t resolution e in
      let (r, in_u, same_json, same_rows) = put_resolution-found env t row.sequence json now put in
      (
        row,
        stored,
        r,
        rw same_rows found,
        is_stored,
        same,
        in_u,
        rw same_json written,
        load_entry-answered ext (env.io 4) u row.sequence loaded,
        load_entry-resolved u row stored r resolution
            (rw same_rows (
              find_message-sequence resolution.round_id resolution.message_id t.validations
                sound.ascending found))
            in_u is_stored
            (laws.decode_encode_resolution (stored_resolution resolution) r.payload_json
              (rw same_json written))
            (load_entry-answered ext (env.io 4) u row.sequence loaded),
      )

  -- What was recorded again had the content of the row.
  record_resolution-content :
      (later : Env) (u : Tables) (other : OperatorResolution) (row : ValidationRow)
      (r : ResolutionRow) {x : Tables × AuditEntry lib.F64}
      → find_message other.round_id other.message_id u.validations ≡ some row
      → find_resolution row.sequence u.resolutions ≡ some r
      → record_resolution lib ext retention later u other ≡ ok x
      → ext.encode_resolution (stored_resolution other) ≡ ok r.payload_json
  record_resolution-content later u other row r {x} found in_u again =
      let (json, now, its_row, stored, written, its_found, is_stored, same, put, loaded) =
        record_resolution-inv lib ext retention later u other again in
      let there : find_resolution its_row.sequence u.resolutions ≡ some r =
        subst
          (λ (o : Option ValidationRow). elim o [
            | none ↦ Unit
            | some v ↦ find_resolution v.sequence u.resolutions ≡ some r
          ])
          (sym found ∙ its_found) in_u in
      elim (put_resolution-inv later u its_row.sequence json now _ put) [
        | inl (r', is_there, same_json, same_u) ↦
            let r'_is : r ≡ r' = some-injective (sym there ∙ is_there) in
            rw r'_is (rw same_json written)
        | inr (fresh, now_u) ↦ cc (there, fresh)
      ]

  -- A recorded resolution is of a validation on record of the same message, participant, place and
  -- decision, and the entry holds both; directly after it was recorded, and whatever the time then,
  -- recording a resolution of the message with another content is refused.
  pub record_resolution-Settles :
      (env later : Env) (t : Tables) (resolution : OperatorResolution) {u : Tables}
      {entry : AuditEntry lib.F64}
      → IsSound ext t
      → record_resolution lib ext retention env t resolution ≡ ok (u, entry)
      → (((row : ValidationRow) × (stored : StoredValidation lib.F64) × (r : ResolutionRow)
            × (find_message resolution.round_id resolution.message_id u.validations ≡ some row)
            × (ext.decode_validation row.payload_json ≡ ok stored)
            × (is_of resolution stored ≡ true)
            × (entry ≡ entry_of row stored (some (resolved resolution r.recorded_at_ms))))
          × ((other : OperatorResolution)
              → other.round_id ≡ resolution.round_id
              → other.message_id ≡ resolution.message_id
              → stored_resolution other ≢ stored_resolution resolution
              → (r : Tables × AuditEntry lib.F64)
              → record_resolution lib ext retention later u other ≢ ok r))
  record_resolution-Settles env later t resolution {u} {entry} sound e =
      let (row, stored, r, found, is_stored, same, in_u, written, loaded, is_entry) =
        record_resolution-found env t resolution sound e in
      (
        (row, stored, r, found, is_stored, same, is_entry),
        λ other same_round same_message differs x again. differs (
            ok-injective _ _ (
              sym (
                laws.decode_encode_resolution (stored_resolution other) r.payload_json (
                  record_resolution-content later u other row r
                    (rw (same_round, same_message) found) in_u again))
              ∙ laws.decode_encode_resolution (stored_resolution resolution) r.payload_json
                  written)),
      )
