-- ===== src/SessionStore/Inversion.antt =====
-- What a successful operation of crates/semantic-engine-session-store/src/lib.rs has checked, and
-- the tables that it leaves.
use semantic_engine.Common.{
  ℕ, ◌+◌, ◌≤◌, Text, true, false, Option, none, some, [], ◌∷◌, ◌++◌, any, ◌&&◌, ◌=t◌, ◌≡◌, arith,
  Option-cases, inl, inr,
}
use semantic_engine.Common.Results.{ok}
use semantic_engine.Common.Machine.{Io, i64_max}
use semantic_engine.SessionStore.Types.{StoredSessionHeader, StoredEvent, StoredDelivery, Tables}
use semantic_engine.SessionStore.Checks.{is_ended}
use semantic_engine.SessionStore.Rows.{
  find_session, update_session, trim, has_delivery, is_unresolved, mark_resolved,
}
use semantic_engine.SessionStore.Operations.{
  expect_next_active_sequence, record_validation, record_resolution, end_session, end_row,
  create_session, delete_ended, delete_rows,
}

-- The session is there and active, and the event has its next number.
pub record Continues (t : Tables) (id : Text) (event : StoredEvent) : Type 0 where
  pub row : StoredSessionHeader
  pub found : find_session id t.sessions ≡ some row
  pub live : is_ended row.state ≡ false
  pub next : event.sequence ≡ row.latest_event_sequence + 1

abbrev pub advance : StoredEvent → StoredSessionHeader → StoredSessionHeader
advance event h = record h { latest_event_sequence = event.sequence }

module _ (io : Io) (t : Tables) (id : Text) (event : StoredEvent) where
  expect-Continues :
      (answer : Option Text)
      → expect_next_active_sequence answer t id event.sequence ≡ ok tt
      → event.sequence ≤ i64_max
      → Continues t id event
  unfolding expect_next_active_sequence
  expect-Continues answer h fits = elim (Option-cases (find_session id t.sessions)) [
    | inl e ↦ absurd (ground arith)
    | inr (row, e) ↦ record { row = row; found = e; live = ground arith; next = ground arith }
  ]

  pub record_validation-eq-ok :
      (delivery : StoredDelivery) (max_events max_deliveries : ℕ) {w : Tables}
      → record_validation io t id event delivery max_events max_deliveries ≡ ok w
      → Continues t id event
        × (event.sequence ≡ delivery.sequence)
        × (has_delivery id delivery.message_id t.deliveries ≡ false)
        × (w ≡ record {
          sessions = update_session id (advance event) t.sessions;
          events = trim (λ e. e.sequence) id max_events (t.events ++ (id, event) ∷ []);
          deliveries =
              trim
                (λ d. d.sequence)
                id
                max_deliveries
                (t.deliveries ++ (id, record delivery { resolution_emitted = false }) ∷ []);
        })
  unfolding record_validation
  record_validation-eq-ok delivery max_events max_deliveries h = (
    expect-Continues (io 1) (ground arith) (ground arith),
    ground arith,
    ground arith,
    ground arith,
  )

  pub record_resolution-eq-ok :
      (message_id : Text) (max_events : ℕ) {w : Tables}
      → record_resolution io t id message_id event max_events ≡ ok w
      → Continues t id event
        × (any (is_unresolved id message_id) t.deliveries ≡ true)
        × (w ≡ record {
          sessions = update_session id (advance event) t.sessions;
          events = trim (λ e. e.sequence) id max_events (t.events ++ (id, event) ∷ []);
          deliveries = mark_resolved id message_id t.deliveries;
        })
  unfolding record_resolution
  record_resolution-eq-ok message_id max_events h =
      (expect-Continues (io 1) (ground arith) (ground arith), ground arith, ground arith)

  pub end_session-eq-ok :
      (max_events : ℕ) {w : Tables}
      → end_session io t id event max_events ≡ ok w
      → Continues t id event
        × (w ≡ record {
          sessions = update_session id (end_row event) t.sessions;
          events = trim (λ e. e.sequence) id max_events (t.events ++ (id, event) ∷ []);
          deliveries = t.deliveries;
        })
  unfolding end_session
  end_session-eq-ok max_events h =
      (expect-Continues (io 1) (ground arith) (ground arith), ground arith)

pub create_session-eq-ok :
    (io : Io) (t : Tables) (header : StoredSessionHeader) (started : StoredEvent) {w : Tables}
    → create_session io t header started ≡ ok w
    → (find_session header.session_id t.sessions ≡ none)
      × (is_ended header.state ≡ false)
      × (header.latest_event_sequence ≡ 1)
      × (started.sequence ≡ 1)
      × (w ≡ record {
        sessions = t.sessions ++ header ∷ [];
        events = t.events ++ (header.session_id, started) ∷ [];
        deliveries = t.deliveries;
      })
unfolding create_session
create_session-eq-ok io t header started h =
    (ground arith, ground arith, ground arith, ground arith, ground arith)

pub delete_ended-eq-ok :
    (io : Io) (t : Tables) (id : Text) {w : Tables}
    → delete_ended io t id ≡ ok w
    → (any (λ h. h.session_id =t id && is_ended h.state) t.sessions ≡ true) × (w ≡ delete_rows id t)
unfolding delete_ended
delete_ended-eq-ok io t id h = (ground arith, ground arith)
