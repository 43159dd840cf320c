-- ===== src/SessionStore/Contract.antt =====
-- What crates/semantic-engine-session-store/src/lib.rs promises of one commit.
use semantic_engine.Common.{
  ℕ, Text, true, false, none, some, List, [], ◌∷◌, ◌++◌, any, trim_front, Text-discrete, ◌+◌, ◌≡◌,
  ◌≢◌, ◌∙◌, ◌⊎◌, refl, sym, subst, arith, inl, inr, Option-cases,
}
use semantic_engine.Common.Results.{ok}
use semantic_engine.Common.Machine.{Io}
use semantic_engine.SessionStore.Types.{StoredSessionHeader, StoredEvent, StoredDelivery, Tables}
use semantic_engine.SessionStore.Checks.{is_ended}
use semantic_engine.SessionStore.Rows.{
  find_session, update_session, trim, is_unresolved, mark_resolved,
}
use semantic_engine.SessionStore.Rows.Own.{
  rows_of, rows_of-append_ne, rows_of-trim_ne, rows_of-delete_ne, find_session-append,
  find_session-delete, find_session-update_self, find_session-update_ne,
}
use semantic_engine.SessionStore.Window.{append-window}
use semantic_engine.SessionStore.Operations.{
  record_validation, record_resolution, delete_rows, purge_all, end_row,
}
use semantic_engine.SessionStore.Inversion.{
  Continues, advance, record_validation-eq-ok, record_resolution-eq-ok, end_session-eq-ok,
  create_session-eq-ok, delete_ended-eq-ok,
}
use semantic_engine.SessionStore.History.{
  IsOrdered, end_row-id, Step, creates, validates, resolves, ends, deletes, purges,
}

-- A validation that is recorded appends its event to the log of its session, keeps the newest
-- `max_events` of them, gives the session the event's number, and leaves the logs and the rows of
-- other sessions alone.
pub record_validation-window :
    (io : Io) (t : Tables) (id : Text) (event : StoredEvent) (delivery : StoredDelivery)
    (max_events max_deliveries : ℕ) {w : Tables}
    → IsOrdered t
    → record_validation io t id event delivery max_events max_deliveries ≡ ok w
    → (h : StoredSessionHeader) × (find_session id t.sessions ≡ some h)
      × (event.sequence ≡ h.latest_event_sequence + 1)
      × (find_session id w.sessions ≡ some (advance event h))
      × (rows_of id w.events ≡ trim_front max_events (rows_of id t.events ++ event ∷ []))
      × ((other : Text)
          → id ≢ other
          → (find_session other w.sessions ≡ find_session other t.sessions)
            × (rows_of other w.events ≡ rows_of other t.events)
            × (rows_of other w.deliveries ≡ rows_of other t.deliveries))
record_validation-window io t id event delivery max_events max_deliveries {w} o e =
    let (c, same, new, w') =
      record_validation-eq-ok io t id event delivery max_events max_deliveries e in
    let (first, positive, run) = o.logs id c.row c.found in
    rw w' (
      c.row,
      c.found,
      c.next,
      find_session-update_self id (advance event) t.sessions (λ h. refl) c.found,
      append-window id max_events first c.row.latest_event_sequence t.events event run
          (omega (arith, c.next)),
      λ other ne. (
        find_session-update_ne id other (advance event) t.sessions (λ h. refl) ne,
        rows_of-trim_ne (λ (x : StoredEvent). x.sequence) id other max_events
              (t.events ++ (id, event) ∷ []) ne
            ∙ rows_of-append_ne id other t.events event ne,
        rows_of-trim_ne (λ (x : StoredDelivery). x.sequence) id other max_deliveries
              (t.deliveries ++ (id, record delivery { resolution_emitted = false }) ∷ []) ne
            ∙ rows_of-append_ne id other t.deliveries _ ne,
      ),
    )

any-mark_resolved :
    (id message_id : Text) (ds : List (Text × StoredDelivery))
    → any (is_unresolved id message_id) (mark_resolved id message_id ds) ≡ false
unfolding is_unresolved mark_resolved
any-mark_resolved id message_id [] = refl
any-mark_resolved id message_id (d ∷ ds) = ground (arith, any-mark_resolved id message_id ds)

-- A delivery is not resolved again: as long as the deliveries are as a recorded resolution left them,
-- whatever the sessions and the events then are, no further one of that message is recorded.
pub record_resolution_once :
    (io later : Io) (t : Tables) (id message_id : Text) (event again : StoredEvent)
    (max_events max_later : ℕ) (u : Tables) {w v : Tables}
    → record_resolution io t id message_id event max_events ≡ ok w
    → u.deliveries ≡ w.deliveries
    → record_resolution later u id message_id again max_later ≢ ok v
record_resolution_once io later t id message_id event again max_events max_later u {w} e same f =
    let (c, one, w') = record_resolution-eq-ok io t id event message_id max_events e in
    let (d, two, v') = record_resolution-eq-ok later u id again message_id max_later f in
    cc (any-mark_resolved id message_id t.deliveries)

rows_of-mark_ne :
    (id other message_id : Text) (ds : List (Text × StoredDelivery))
    → id ≢ other
    → rows_of other (mark_resolved id message_id ds) ≡ rows_of other ds
unfolding is_unresolved mark_resolved
rows_of-mark_ne id other message_id [] ne = refl
rows_of-mark_ne id other message_id ((owner, d) ∷ ds) ne =
    ground (arith, rows_of-mark_ne id other message_id ds ne)

-- The rows of a session are the same in both tables.
pub record SameSession (id : Text) (t w : Tables) : Type 0 where
  pub session : find_session id w.sessions ≡ find_session id t.sessions
  pub events : rows_of id w.events ≡ rows_of id t.events
  pub deliveries : rows_of id w.deliveries ≡ rows_of id t.deliveries

-- A session that is there and has ended.
pub record HasEnded (id : Text) (t : Tables) : Type 0 where
  pub row : StoredSessionHeader
  pub found : find_session id t.sessions ≡ some row
  pub over : is_ended row.state ≡ true

Continues-ne :
    (t : Tables) (id other : Text) (event : StoredEvent)
    → HasEnded other t
    → Continues t id event
    → id ≢ other
Continues-ne t id other event h c same =
    let e : find_session id t.sessions ≡ some h.row =
      subst (λ i. find_session i t.sessions ≡ some h.row) (sym same) h.found in
    ground (arith, c.found, c.live, h.over)

module _ (t : Tables) (id other : Text) (event : StoredEvent) (max_events : ℕ)
    (f : StoredSessionHeader → StoredSessionHeader)
    (same_id : (h : StoredSessionHeader) → (f h).session_id ≡ h.session_id)
    (deliveries : List (Text × StoredDelivery)) (ne : id ≢ other)
    (kept : rows_of other deliveries ≡ rows_of other t.deliveries) where
  appended-SameSession : SameSession other t (record {
    sessions = update_session id f t.sessions;
    events = trim (λ (e : StoredEvent). e.sequence) id max_events (t.events ++ (id, event) ∷ []);
    deliveries = deliveries;
  })
  appended-SameSession = record {
    session = find_session-update_ne id other f t.sessions same_id ne;
    events =
        rows_of-trim_ne (λ (x : StoredEvent). x.sequence) id other max_events
          (t.events ++ (id, event) ∷ []) ne
        ∙ rows_of-append_ne id other t.events event ne;
    deliveries = kept;
  }

create-SameSession :
    (t : Tables) (other : Text) (header : StoredSessionHeader) (started : StoredEvent)
    → HasEnded other t
    → find_session header.session_id t.sessions ≡ none
    → SameSession other t (record {
      sessions = t.sessions ++ header ∷ [];
      events = t.events ++ (header.session_id, started) ∷ [];
      deliveries = t.deliveries;
    })
create-SameSession t other header started h fresh =
    let ne : header.session_id ≢ other = λ same.
      let e : find_session header.session_id t.sessions ≡ some h.row =
        subst (λ i. find_session i t.sessions ≡ some h.row) (sym same) h.found in
      cc in
    record {
      session = ground (arith, find_session-append other t.sessions header, h.found);
      events = rows_of-append_ne header.session_id other t.events started ne;
      deliveries = refl;
    }

delete-SameSession :
    (t : Tables) (id other : Text)
    → SameSession other t (delete_rows id t)
      ⊎ (find_session other (delete_rows id t).sessions ≡ none)
unfolding delete_rows
delete-SameSession t id other = elim (Text-discrete id other) [
  | yes same ↦ inr (ground (arith, find_session-delete id other t.sessions))
  | no ne ↦ inl (record {
    session = ground (arith, find_session-delete id other t.sessions);
    events = rows_of-delete_ne id other t.events ne;
    deliveries = rows_of-delete_ne id other t.deliveries ne;
  })
]

purge-SameSession :
    (io : Io) (t : Tables) (other : Text)
    → SameSession other t (purge_all io t).0
      ⊎ (find_session other (purge_all io t).0.sessions ≡ none)
unfolding purge_all find_session
purge-SameSession io t other = elim (Option-cases (io 0)) [
  | inl fine ↦ inr (rw (fine, purge_all))
  | inr (m, failed) ↦
      inl (rw (failed, purge_all) (record { session = refl; events = refl; deliveries = refl }))
]

-- The log of an ended session is final: every commit leaves its row, its events and its deliveries
-- as they are, or removes the session.
pub Step-HasEnded :
    {t w : Tables} (other : Text)
    → HasEnded other t
    → Step t w
    → SameSession other t w ⊎ (find_session other w.sessions ≡ none)
Step-HasEnded {t} other h (creates io header started e) =
    let (fresh, live, latest, first, w) = create_session-eq-ok io t header started e in
    rw w (inl (create-SameSession t other header started h fresh))
Step-HasEnded {t} other h (validates io id event delivery me md e) =
    let (c, same, new, w) = record_validation-eq-ok io t id event delivery me md e in
    let ne = Continues-ne t id other event h c in
    rw w (
      inl (
        appended-SameSession t id other event me (advance event) (λ x. refl) _ ne
          (rows_of-trim_ne (λ (x : StoredDelivery). x.sequence) id other md
              (t.deliveries ++ (id, record delivery { resolution_emitted = false }) ∷ []) ne
            ∙ rows_of-append_ne id other t.deliveries _ ne)))
Step-HasEnded {t} other h (resolves io id message_id event me e) =
    let (c, one, w) = record_resolution-eq-ok io t id event message_id me e in
    let ne = Continues-ne t id other event h c in
    rw w (
      inl (
        appended-SameSession t id other event me (advance event) (λ x. refl) _ ne
          (rows_of-mark_ne id other message_id t.deliveries ne)))
Step-HasEnded {t} other h (ends io id event me e) =
    let (c, w) = end_session-eq-ok io t id event me e in
    let ne = Continues-ne t id other event h c in
    rw w
      (inl (appended-SameSession t id other event me (end_row event) (end_row-id event) _ ne refl))
Step-HasEnded {t} other h (deletes io id e) =
    let (some_ended, w) = delete_ended-eq-ok io t id e in rw w (delete-SameSession t id other)
Step-HasEnded {t} other h (purges io e) =
    subst (λ w. SameSession other t w ⊎ (find_session other w.sessions ≡ none)) e
      (purge-SameSession io t other)
