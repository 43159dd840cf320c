-- ===== src/AuditStore/Tests.antt =====
-- Tests of the model of crates/semantic-engine-audit-store, and its theorems at concrete inputs.
use semantic_engine.Common.{
  ℕ, Text, text_of, true, Option, none, some, [], ◌∷◌, map, ◌≡◌, ◌≢◌, refl, arith, Text-discrete,
  ℕ_discrete,
}
use semantic_engine.Common.Fields.{write_fields}
use semantic_engine.Common.Results.{ok, err, ◌>>=◌}
use semantic_engine.Core.Types.{Validation, OperatorResolution}
use semantic_engine.Core.Samples.{sample}
use semantic_engine.AuditStore.Types.{
  map_score, AuditEntry, ValidationRow, ResolutionRow, StoredValidation, Tables, missing_validation,
}
use semantic_engine.AuditStore.Checks.{validate_retention}
use semantic_engine.AuditStore.Operations.{
  find_message, entry_of, stored_validation, stored_resolution, new_row,
}
use semantic_engine.AuditStore.Record.{
  record_validation, record_resolution, list_round, recent, delete_round, purge_all, is_of,
}
use semantic_engine.AuditStore.Retention.{IsSound}
use semantic_engine.AuditStore.Invariant.{IsKept, here, next, records, Step-IsKept, Reach-IsKept}
use semantic_engine.AuditStore.RoundTrip.{IsUp, record_validation-records, record_validation_once}
use semantic_engine.AuditStore.Resolutions.{resolved, record_resolution-Settles}
use semantic_engine.AuditStore.Samples.{
  plain, plain-RoundTrips, at, two_kept, empty, unsure, accepts, validation_fields,
  resolution_fields,
}

program : Unit {0}
unfolding record_validation record_resolution list_round recent delete_round purge_all
    validate_retention Text-discrete ℕ_discrete
program = tt

empty-IsSound : IsSound plain empty
empty-IsSound = record { ascending = tt; below = tt; unique = tt; decoded = tt; linked = tt }

at-IsUp : IsUp (at 9) 9
at-IsUp = record { answers = λ k. refl; clock = refl; holds_now = refl }

abbrev unsure_json : Text
unsure_json = write_fields (validation_fields (stored_validation (unsure (text_of "m-1")) none))

-- The row and the entry of the first message, recorded at 9
abbrev first_row : ValidationRow
first_row = new_row empty (unsure (text_of "m-1")) 9 unsure_json

abbrev one_kept : Tables
one_kept = record { validations = first_row ∷ []; resolutions = []; next_sequence = 2 }

abbrev first_entry : AuditEntry ℕ
first_entry = entry_of first_row (stored_validation (unsure (text_of "m-1")) none) none

keeps_two :
    (record_validation sample plain two_kept (at 5) empty (unsure (text_of "m-1")) none >>= λ a.
    record_validation sample plain two_kept (at 6) a.0 (unsure (text_of "m-2")) none >>= λ b.
    record_validation sample plain two_kept (at 7) b.0 (unsure (text_of "m-3")) none >>= λ c.
    ok (map (λ (r : ValidationRow). r.message_id) c.0.validations))
    ≡ ok (text_of "m-2" ∷ text_of "m-3" ∷ [])
unfolding program
keeps_two = refl

forgets_old :
    (record_validation sample plain two_kept (at 5) empty (unsure (text_of "m-1")) none >>= λ a.
    record_validation sample plain two_kept (at 60006) a.0 (unsure (text_of "m-2")) none >>= λ b.
    ok (map (λ (r : ValidationRow). r.message_id) b.0.validations))
    ≡ ok (text_of "m-2" ∷ [])
unfolding program
forgets_old = refl

wants_validation :
    record_resolution sample plain two_kept (at 5) empty (accepts (text_of "m-1"))
    ≡ err missing_validation
unfolding program
wants_validation = refl

records_one :
    record_validation sample plain two_kept (at 9) empty (unsure (text_of "m-1")) none
    ≡ ok (one_kept, first_entry)
unfolding program
records_one = refl

record_validation-records_example :
    (u : Tables) × (record_validation sample plain two_kept
        (at 9)
        empty
        (unsure (text_of "m-1"))
        none
      ≡ ok (
        u,
        entry_of first_row
            (map_score plain-RoundTrips.reread (stored_validation (unsure (text_of "m-1")) none))
            none,
      ))
unfolding program
record_validation-records_example =
    record_validation-records sample plain plain-RoundTrips two_kept refl empty empty-IsSound
      (unsure (text_of "m-1")) none unsure_json 9 refl refl (at 9) at-IsUp refl

record_validation_once_example :
    ((record_validation sample plain two_kept (at 9) one_kept (unsure (text_of "m-1")) none
        ≡ ok (one_kept, first_entry))
      × ((other : Validation ℕ) (its_context : Option Text)
          → other.round_id ≡ text_of "round-1"
          → other.message_id ≡ text_of "m-1"
          → map_score plain-RoundTrips.reread (stored_validation other its_context)
            ≢ map_score plain-RoundTrips.reread (stored_validation (unsure (text_of "m-1")) none)
          → (r : Tables × AuditEntry ℕ)
          → record_validation sample plain two_kept (at 9) one_kept other its_context ≢ ok r))
unfolding program
record_validation_once_example =
    record_validation_once sample plain plain-RoundTrips two_kept refl (at 9) (at 9) empty
      (unsure (text_of "m-1")) none 9 {u = one_kept} {entry = first_entry} empty-IsSound records_one
      at-IsUp

Reach-IsKept_example : IsKept plain 2 one_kept
Reach-IsKept_example =
    Reach-IsKept sample plain plain-RoundTrips two_kept {s = empty} {t = one_kept}
      (empty-IsSound, omega arith)
      (next here
        (records (at 9) (unsure (text_of "m-1")) none {r = (one_kept, first_entry)} records_one))

one_kept-IsSound : IsSound plain one_kept
one_kept-IsSound =
    (Step-IsKept sample plain plain-RoundTrips two_kept
      (records (at 9) (unsure (text_of "m-1")) none {r = (one_kept, first_entry)} records_one)
      (empty-IsSound, omega arith)).0

abbrev resolution_row : ResolutionRow
resolution_row = record {
  validation_sequence = 1;
  recorded_at_ms = 11;
  payload_json = write_fields (resolution_fields (stored_resolution (accepts (text_of "m-1"))));
}

abbrev settled : Tables
settled = record one_kept { resolutions = resolution_row ∷ [] }

record_resolution-Settles_example :
    (((row : ValidationRow) × (stored : StoredValidation ℕ) × (r : ResolutionRow) × (find_message
            (text_of "round-1")
            (text_of "m-1")
            settled.validations
          ≡ some row)
        × (plain.decode_validation row.payload_json ≡ ok stored)
        × (is_of (accepts (text_of "m-1")) stored ≡ true)
        × (entry_of first_row
              (stored_validation (unsure (text_of "m-1")) none)
              (some (resolved (accepts (text_of "m-1")) 11))
            ≡ entry_of row stored (some (resolved (accepts (text_of "m-1")) r.recorded_at_ms))))
      × ((other : OperatorResolution)
          → other.round_id ≡ text_of "round-1"
          → other.message_id ≡ text_of "m-1"
          → stored_resolution other ≢ stored_resolution (accepts (text_of "m-1"))
          → (r : Tables × AuditEntry ℕ)
          → record_resolution sample plain two_kept (at 12) settled other ≢ ok r))
unfolding program
record_resolution-Settles_example =
    record_resolution-Settles sample plain plain-RoundTrips two_kept (at 11) (at 12) one_kept
      (accepts (text_of "m-1")) {u = settled}
      {entry = entry_of first_row (stored_validation (unsure (text_of "m-1")) none)
        (some (resolved (accepts (text_of "m-1")) 11))}
      one_kept-IsSound refl
