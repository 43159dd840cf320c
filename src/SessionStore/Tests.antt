-- ===== src/SessionStore/Tests.antt =====
-- Tests of the model of crates/semantic-engine-session-store, and its theorems at concrete inputs.
use semantic_engine.Common.{
  ℕ, Text, text_of, true, false, none, some, [], ◌∷◌, ◌++◌, trim_front, ◌+◌, ◌≡◌, ◌≢◌, ◌⊎◌, refl,
  Text-discrete, ℕ_discrete,
}
use semantic_engine.Common.Results.{ok, err}
use semantic_engine.Common.Machine.{io_ok}
use semantic_engine.SessionStore.Types.{
  StoredSessionHeader, active, ended, StoredEvent, StoredDelivery, Tables, ended_session,
}
use semantic_engine.SessionStore.Rows.{find_session}
use semantic_engine.SessionStore.Rows.Own.{rows_of}
use semantic_engine.SessionStore.Operations.{
  create_session, record_validation, record_resolution, end_session,
}
use semantic_engine.SessionStore.Inversion.{advance}
use semantic_engine.SessionStore.History.{
  IsOrdered, creates, validates, Reach, here, next, no_tables, Reach-IsOrdered,
}
use semantic_engine.SessionStore.Contract.{
  record_validation-window, record_resolution_once, SameSession, HasEnded, Step-HasEnded,
}

program : Unit {0}
unfolding create_session record_validation record_resolution end_session find_session Text-discrete
    ℕ_discrete
program = tt

abbrev live_1 : Text
live_1 = text_of "live-1"

abbrev event_at : ℕ → StoredEvent
event_at n = record { sequence = n; occurred_at_ms = 1000; payload_json = text_of "payload" }

abbrev delivery_at : Text → ℕ → StoredDelivery
delivery_at message n = record {
  message_id = message;
  sequence = n;
  request_fingerprint = [];
  validation_json = text_of "validation";
  resolution_emitted = false;
}

abbrev header : StoredSessionHeader
header = record {
  session_id = live_1;
  definition_fingerprint = [];
  definition_json = text_of "definition";
  state = active;
  created_at_ms = 1000;
  ended_at_ms = none;
  latest_event_sequence = 1;
}

abbrev started : Tables
started = record { sessions = header ∷ []; events = (live_1, event_at 1) ∷ []; deliveries = [] }

-- The log keeps two events.
abbrev validated : Tables
validated = record {
  sessions = record header { latest_event_sequence = 2 } ∷ [];
  events = (live_1, event_at 1) ∷ (live_1, event_at 2) ∷ [];
  deliveries = (live_1, delivery_at (text_of "m1") 2) ∷ [];
}

abbrev resolved : Tables
resolved = record {
  sessions = record header { latest_event_sequence = 3 } ∷ [];
  events = (live_1, event_at 2) ∷ (live_1, event_at 3) ∷ [];
  deliveries = (live_1, record (delivery_at (text_of "m1") 2) { resolution_emitted = true }) ∷ [];
}

abbrev over : Tables
over = record {
  sessions =
      record header { state = ended; ended_at_ms = some 1000; latest_event_sequence = 4 } ∷ [];
  events = (live_1, event_at 3) ∷ (live_1, event_at 4) ∷ [];
  deliveries = resolved.deliveries;
}

starts : create_session io_ok no_tables header (event_at 1) ≡ ok started
unfolding program
starts = refl

records :
    record_validation io_ok started live_1 (event_at 2) (delivery_at (text_of "m1") 2) 2 10
    ≡ ok validated
unfolding program
records = refl

settles : record_resolution io_ok validated live_1 (text_of "m1") (event_at 3) 2 ≡ ok resolved
unfolding program
settles = refl

stops : end_session io_ok resolved live_1 (event_at 4) 2 ≡ ok over
unfolding program
stops = refl

refused : end_session io_ok over live_1 (event_at 5) 2 ≡ err ended_session
unfolding program
refused = refl

-- The store drops a delivery that is the last but one of two, where three are to be kept: numbers
-- count, and the resolutions between the two took numbers.
abbrev sparse : Tables
sparse = record {
  sessions = record header { latest_event_sequence = 5 } ∷ [];
  events = (live_1, event_at 5) ∷ [];
  deliveries = (live_1, delivery_at (text_of "m1") 2) ∷ [];
}

drops_recent :
    record_validation io_ok sparse live_1 (event_at 6) (delivery_at (text_of "m2") 6) 1 3
    ≡ ok (record {
      sessions = record header { latest_event_sequence = 6 } ∷ [];
      events = (live_1, event_at 6) ∷ [];
      deliveries = (live_1, delivery_at (text_of "m2") 6) ∷ [];
    })
unfolding program
drops_recent = refl

validated-Reach : Reach no_tables validated
validated-Reach =
    next (next here (creates io_ok header (event_at 1) starts))
      (validates io_ok live_1 (event_at 2) (delivery_at (text_of "m1") 2) 2 10 records)

Reach-IsOrdered_example : IsOrdered validated
Reach-IsOrdered_example = Reach-IsOrdered validated-Reach

started-IsOrdered : IsOrdered started
started-IsOrdered = Reach-IsOrdered (next here (creates io_ok header (event_at 1) starts))

record_validation-window_example :
    (h : StoredSessionHeader) × (find_session live_1 started.sessions ≡ some h)
    × (2 ≡ h.latest_event_sequence + 1)
    × (find_session live_1 validated.sessions ≡ some (advance (event_at 2) h))
    × (rows_of live_1 validated.events
        ≡ trim_front 2 (rows_of live_1 started.events ++ event_at 2 ∷ []))
    × ((other : Text)
        → live_1 ≢ other
        → (find_session other validated.sessions ≡ find_session other started.sessions)
          × (rows_of other validated.events ≡ rows_of other started.events)
          × (rows_of other validated.deliveries ≡ rows_of other started.deliveries))
record_validation-window_example =
    record_validation-window io_ok started live_1 (event_at 2) (delivery_at (text_of "m1") 2) 2 10
      started-IsOrdered records

record_resolution_once_example :
    record_resolution io_ok resolved live_1 (text_of "m1") (event_at 4) 2 ≢ ok over
record_resolution_once_example =
    record_resolution_once io_ok io_ok validated live_1 (text_of "m1") (event_at 3) (event_at 4) 2 2
      resolved settles refl

over-HasEnded : HasEnded live_1 over
unfolding program
over-HasEnded = record { row = _; found = refl; over = refl }

abbrev second : StoredSessionHeader
second = record header { session_id = text_of "live-2" }

Step-HasEnded_example :
    SameSession live_1 over (record over {
      sessions = over.sessions ++ second ∷ [];
      events = over.events ++ (text_of "live-2", event_at 1) ∷ [];
    })
    ⊎ (find_session live_1 (over.sessions ++ second ∷ []) ≡ none)
unfolding program
Step-HasEnded_example = Step-HasEnded live_1 over-HasEnded (creates io_ok second (event_at 1) refl)
