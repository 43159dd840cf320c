-- ===== src/SessionStore/Operations.antt =====
-- `SessionStore` of crates/semantic-engine-session-store/src/lib.rs. An operation gives the tables
-- after its commit, or an error; a transaction that is dropped leaves the tables as they were.
use semantic_engine.Common.{
  ℕ, Text, Bool, false, Option, none, some, [], ◌∷◌, ◌++◌, not, ◌&&◌, if◌then◌else◌, ◌==◌, ◌=t◌,
  length, any, retain,
}
use semantic_engine.Common.Results.{Result, ok, err, ◌>>=◌, ◌>>◌, guard, ok_or}
use semantic_engine.Common.Machine.{Io, statement, saturating_add}
use semantic_engine.SessionStore.Types.{
  StoredSessionHeader, ended, StoredEvent, StoredDelivery, SessionStoreError, database,
  invalid_record, conflict, missing, ended_session, Tables,
}
use semantic_engine.SessionStore.Checks.{
  is_ended, is_some, validate_header, validate_event, validate_delivery, validate_limits, to_i64,
}
use semantic_engine.SessionStore.Rows.{
  find_session, update_session, trim, has_event, has_delivery, is_unresolved, mark_resolved,
}

-- A violated key that `map_insert_error` does not see.
abbrev pub unique_violation : Text
unique_violation = []

abbrev run : Option Text → Result SessionStoreError (Unit {0})
run = statement database

-- `expect_next_active_sequence`
unfoldable pub expect_next_active_sequence :
    Option Text → Tables → Text → ℕ → Result SessionStoreError (Unit {0})
unfolding find_session
expect_next_active_sequence answer tables session_id sequence = do
  run answer
  row ← ok_or (find_session session_id tables.sessions) missing
  guard (not (is_ended row.state)) ended_session
  guard (sequence == saturating_add row.latest_event_sequence 1) conflict

-- `insert_event`: a second event of that number violates the primary key.
unfoldable pub insert_event :
    Option Text → Tables → Text → StoredEvent → Result SessionStoreError Tables
unfolding has_event to_i64
insert_event answer tables session_id event = do
  sequence ← to_i64 event.sequence
  occurred_at_ms ← to_i64 event.occurred_at_ms
  run answer
  guard (not (has_event session_id event.sequence tables.events)) (database unique_violation)
  ok (record tables { events = tables.events ++ (session_id, event) ∷ [] })

-- `append_event_and_advance`
unfoldable pub append_event_and_advance :
    Option Text → Option Text → Tables → Text → StoredEvent → Result SessionStoreError Tables
unfolding insert_event update_session
append_event_and_advance inserting advancing tables session_id event = do
  t ← insert_event inserting tables session_id event
  sequence ← to_i64 event.sequence
  run advancing
  ok (record t {
    sessions =
        update_session session_id (λ h. record h { latest_event_sequence = event.sequence })
          t.sessions;
  })

unfoldable pub trim_events : Option Text → Tables → Text → ℕ → Result SessionStoreError Tables
unfolding trim
trim_events answer tables session_id capacity = do
  run answer
  ok (record tables { events = trim (λ e. e.sequence) session_id capacity tables.events })

unfoldable pub trim_deliveries : Option Text → Tables → Text → ℕ → Result SessionStoreError Tables
unfolding trim
trim_deliveries answer tables session_id capacity = do
  run answer
  ok (record tables { deliveries = trim (λ d. d.sequence) session_id capacity tables.deliveries })

-- What `create_session` asks of the header and of the first event.
unfoldable pub starts : StoredSessionHeader → StoredEvent → Bool
starts header started =
    not (is_ended header.state)
    && not (is_some header.ended_at_ms)
    && header.latest_event_sequence == started.sequence
    && started.sequence == 1

unfoldable pub create_session :
    Io → Tables → StoredSessionHeader → StoredEvent → Result SessionStoreError Tables
unfolding starts validate_header validate_event find_session insert_event to_i64
create_session io tables header started = do
  validate_header header
  validate_event started
  guard (starts header started) invalid_record
  run (io 0)
  created_at_ms ← to_i64 header.created_at_ms
  latest ← to_i64 header.latest_event_sequence
  run (io 1)
  guard (not (is_some (find_session header.session_id tables.sessions))) conflict
  t ←
      insert_event (io 2) (record tables { sessions = tables.sessions ++ header ∷ [] })
        header.session_id started
  run (io 3)
  ok t

-- The `INSERT` of `record_validation`; the column `resolution_emitted` takes its default.
unfoldable pub insert_delivery :
    Option Text → Tables → Text → StoredDelivery → Result SessionStoreError Tables
unfolding has_delivery to_i64
insert_delivery answer tables session_id delivery = do
  sequence ← to_i64 delivery.sequence
  run answer
  guard (not (has_delivery session_id delivery.message_id tables.deliveries)) conflict
  ok (record tables {
    deliveries =
        tables.deliveries ++ (session_id, record delivery { resolution_emitted = false }) ∷ [];
  })

unfoldable pub record_validation :
    Io → Tables → Text → StoredEvent → StoredDelivery → ℕ → ℕ → Result SessionStoreError Tables
unfolding validate_limits validate_event validate_delivery expect_next_active_sequence
    insert_delivery append_event_and_advance trim_events trim_deliveries
record_validation io tables session_id event delivery max_events max_deliveries = do
  validate_limits max_events max_deliveries
  validate_event event
  validate_delivery delivery
  guard (event.sequence == delivery.sequence) invalid_record
  run (io 0)
  expect_next_active_sequence (io 1) tables session_id event.sequence
  t ← insert_delivery (io 2) tables session_id delivery
  u ← append_event_and_advance (io 3) (io 4) t session_id event
  v ← trim_events (io 5) u session_id max_events
  w ← trim_deliveries (io 6) v session_id max_deliveries
  run (io 7)
  ok w

-- The `UPDATE` of `record_resolution`, which must change one row.
unfoldable pub resolve_delivery :
    Option Text → Tables → Text → Text → Result SessionStoreError Tables
unfolding is_unresolved mark_resolved
resolve_delivery answer tables session_id message_id = do
  run answer
  guard (any (is_unresolved session_id message_id) tables.deliveries) conflict
  ok (record tables { deliveries = mark_resolved session_id message_id tables.deliveries })

unfoldable pub record_resolution :
    Io → Tables → Text → Text → StoredEvent → ℕ → Result SessionStoreError Tables
unfolding validate_limits validate_event expect_next_active_sequence resolve_delivery
    append_event_and_advance trim_events
record_resolution io tables session_id message_id event max_events = do
  validate_limits max_events 1
  validate_event event
  run (io 0)
  expect_next_active_sequence (io 1) tables session_id event.sequence
  t ← resolve_delivery (io 2) tables session_id message_id
  u ← append_event_and_advance (io 3) (io 4) t session_id event
  v ← trim_events (io 5) u session_id max_events
  run (io 6)
  ok v

-- The `UPDATE` of `end_session`, on the row that is active.
unfoldable pub end_row : StoredEvent → StoredSessionHeader → StoredSessionHeader
end_row event h = if is_ended h.state then h else (record h {
  state = ended;
  ended_at_ms = some event.occurred_at_ms;
  latest_event_sequence = event.sequence;
})

unfoldable pub end_session : Io → Tables → Text → StoredEvent → ℕ → Result SessionStoreError Tables
unfolding validate_limits validate_event expect_next_active_sequence insert_event update_session
    end_row trim_events
end_session io tables session_id event max_events = do
  validate_limits max_events 1
  validate_event event
  run (io 0)
  expect_next_active_sequence (io 1) tables session_id event.sequence
  t ← insert_event (io 2) tables session_id event
  run (io 3)
  let u = record t { sessions = update_session session_id (end_row event) t.sessions }
  v ← trim_events (io 4) u session_id max_events
  run (io 5)
  ok v

-- The rows of a session go with it (`ON DELETE CASCADE`).
unfoldable pub delete_rows : Text → Tables → Tables
delete_rows session_id tables = record {
  sessions = retain (λ h. not (h.session_id =t session_id)) tables.sessions;
  events = retain (λ r. not (r.0 =t session_id)) tables.events;
  deliveries = retain (λ r. not (r.0 =t session_id)) tables.deliveries;
}

-- `delete_ended`
unfoldable pub delete_ended : Io → Tables → Text → Result SessionStoreError Tables
unfolding delete_rows
delete_ended io tables session_id = do
  run (io 0)
  guard (any (λ h. h.session_id =t session_id && is_ended h.state) tables.sessions) conflict
  ok (delete_rows session_id tables)

-- `purge_all`: a `VACUUM` that fails is an error after the deletion.
unfoldable pub purge_all : Io → Tables → Tables × Result SessionStoreError ℕ
purge_all io tables = elim (io 0) [
  | some message ↦ (tables, err (database message))
  | none ↦
      let deleted = length tables.sessions in
      (
        record { sessions = []; events = []; deliveries = [] },
        (if deleted == 0 then ok deleted else (run (io 1) >>= λ _. ok deleted)),
      )
]
