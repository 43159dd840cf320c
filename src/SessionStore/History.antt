-- ===== src/SessionStore/History.antt =====
-- Whatever is committed to the store of crates/semantic-engine-session-store/src/lib.rs, the events
-- of each session stay consecutively numbered up to its latest number.
use semantic_engine.Common.{
  ℕ, suc, Text, false, none, some, List, [], ◌∷◌, ◌++◌, Text-discrete, ◌≤◌, ◌≡◌, ◌≢◌, ◌∙◌, refl,
  sym, subst, arith, inl, inr, Option-cases,
}
use semantic_engine.Common.Results.{ok}
use semantic_engine.Common.Machine.{Io}
use semantic_engine.SessionStore.Types.{StoredSessionHeader, StoredEvent, StoredDelivery, Tables}
use semantic_engine.SessionStore.Checks.{is_ended}
use semantic_engine.SessionStore.Rows.{find_session, update_session, trim}
use semantic_engine.SessionStore.Rows.Own.{
  rows_of, rows_of-append_self, rows_of-append_ne, rows_of-trim_ne, rows_of-delete,
  rows_of-delete_ne, find_session-append, find_session-delete, find_session-update_self,
  find_session-update_ne,
}
use semantic_engine.SessionStore.Window.{Runs, Runs-append, Runs-trim_front, append-window}
use semantic_engine.SessionStore.Operations.{
  create_session, record_validation, record_resolution, end_session, delete_ended, delete_rows,
  purge_all, end_row,
}
use semantic_engine.SessionStore.Inversion.{
  Continues, advance, record_validation-eq-ok, record_resolution-eq-ok, end_session-eq-ok,
  create_session-eq-ok, delete_ended-eq-ok,
}

-- The log of every session is a run that ends at its latest number; there are no events without a
-- session.
pub record IsOrdered (t : Tables) : Type 0 where
  pub logs :
      (id : Text) (h : StoredSessionHeader)
      → find_session id t.sessions ≡ some h
      → (first : ℕ) × (1 ≤ first) × Runs first h.latest_event_sequence (rows_of id t.events)
  pub orphans : (id : Text) → find_session id t.sessions ≡ none → rows_of id t.events ≡ []

-- A commit of the store.
pub data Step : Tables → Tables → Type 0 where
  creates :
      {t w : Tables} (io : Io) (header : StoredSessionHeader) (started : StoredEvent)
      → create_session io t header started ≡ ok w
      → Step t w
  validates :
      {t w : Tables} (io : Io) (id : Text) (event : StoredEvent) (delivery : StoredDelivery)
      (max_events max_deliveries : ℕ)
      → record_validation io t id event delivery max_events max_deliveries ≡ ok w
      → Step t w
  resolves :
      {t w : Tables} (io : Io) (id message_id : Text) (event : StoredEvent) (max_events : ℕ)
      → record_resolution io t id message_id event max_events ≡ ok w
      → Step t w
  ends :
      {t w : Tables} (io : Io) (id : Text) (event : StoredEvent) (max_events : ℕ)
      → end_session io t id event max_events ≡ ok w
      → Step t w
  deletes : {t w : Tables} (io : Io) (id : Text) → delete_ended io t id ≡ ok w → Step t w
  purges : {t w : Tables} (io : Io) → (purge_all io t).0 ≡ w → Step t w

pub data Reach (s : Tables) : Tables → Type 0 where
  here : Reach s s
  next : {t w : Tables} → Reach s t → Step t w → Reach s w

abbrev pub no_tables : Tables
no_tables = record { sessions = []; events = []; deliveries = [] }

IsOrdered-no_tables : IsOrdered no_tables
unfolding find_session
IsOrdered-no_tables = record { logs = λ id h e. absurd (ground arith); orphans = λ id e. refl }

pub end_row-id :
    (event : StoredEvent) (h : StoredSessionHeader) → (end_row event h).session_id ≡ h.session_id
unfolding end_row
end_row-id event h = ground arith

end_row-latest :
    (event : StoredEvent) (h : StoredSessionHeader)
    → is_ended h.state ≡ false
    → (end_row event h).latest_event_sequence ≡ event.sequence
unfolding end_row
end_row-latest event h live = ground arith

-- The sessions and events after the next event of one session, whose header is then `f` of what it
-- was.
module _ (t : Tables) (id : Text) (event : StoredEvent) (max_events : ℕ)
    (f : StoredSessionHeader → StoredSessionHeader)
    (same_id : (h : StoredSessionHeader) → (f h).session_id ≡ h.session_id)
    (deliveries : List (Text × StoredDelivery)) where
  abbrev appended : Tables
  appended = record {
    sessions = update_session id f t.sessions;
    events = trim (λ (e : StoredEvent). e.sequence) id max_events (t.events ++ (id, event) ∷ []);
    deliveries = deliveries;
  }

  module _ (o : IsOrdered t) (c : Continues t id event)
      (latest : (f c.row).latest_event_sequence ≡ event.sequence) where
    other_rows :
        (other : Text) → id ≢ other → rows_of other appended.events ≡ rows_of other t.events
    other_rows other ne =
        rw
          (rows_of-trim_ne (λ (e : StoredEvent). e.sequence) id other max_events
            (t.events ++ (id, event) ∷ []) ne)
          (rows_of-append_ne id other t.events event ne)

    -- The log of the session, up to the number that is given.
    abbrev Logged : Text → ℕ → Type 0
    Logged other last = (first : ℕ) × (1 ≤ first) × Runs first last (rows_of other appended.events)

    own_log : Logged id event.sequence
    own_log =
        let (first, positive, run) = o.logs id c.row c.found in
        let last = c.row.latest_event_sequence in
        let n : event.sequence ≡ suc last = omega (arith, c.next) in
        subst (Logged id) (sym n) (
          rw (append-window id max_events first last t.events event run n) (
            Runs-trim_front max_events first (suc last) (rows_of id t.events ++ event ∷ []) positive
              (Runs-append first last (rows_of id t.events) event run n)))

    own_session : find_session id appended.sessions ≡ some (f c.row)
    own_session = find_session-update_self id f t.sessions same_id c.found

    other_session :
        (other : Text)
        → id ≢ other
        → find_session other appended.sessions ≡ find_session other t.sessions
    other_session other ne = find_session-update_ne id other f t.sessions same_id ne

    appended-logs :
        (other : Text) (h : StoredSessionHeader)
        → find_session other appended.sessions ≡ some h
        → Logged other h.latest_event_sequence
    appended-logs other h e = elim (Text-discrete id other) [
      | yes same ↦
          let e' : find_session id appended.sessions ≡ some h =
            subst (λ i. find_session i appended.sessions ≡ some h) (sym same) e in
          let n : event.sequence ≡ h.latest_event_sequence = ground (arith, own_session) in
          subst (λ i. Logged i h.latest_event_sequence) same (subst (Logged id) n own_log)
      | no ne ↦ rw (other_rows other ne) (o.logs other h (sym (other_session other ne) ∙ e))
    ]

    appended-orphans :
        (other : Text)
        → find_session other appended.sessions ≡ none
        → rows_of other appended.events ≡ []
    appended-orphans other e = elim (Text-discrete id other) [
      | yes same ↦
          let e' : find_session id appended.sessions ≡ none =
            subst (λ i. find_session i appended.sessions ≡ none) (sym same) e in
          absurd (ground (arith, own_session))
      | no ne ↦ rw (other_rows other ne) (o.orphans other (sym (other_session other ne) ∙ e))
    ]

    pub appended-IsOrdered : IsOrdered appended
    appended-IsOrdered = record { logs = appended-logs; orphans = appended-orphans }

create-IsOrdered :
    (t : Tables) (header : StoredSessionHeader) (started : StoredEvent)
    → IsOrdered t
    → find_session header.session_id t.sessions ≡ none
    → header.latest_event_sequence ≡ 1
    → started.sequence ≡ 1
    → IsOrdered (record t {
      sessions = t.sessions ++ header ∷ [];
      events = t.events ++ (header.session_id, started) ∷ [];
    })
create-IsOrdered t header started o fresh latest first = record {
  logs = λ id h e. elim (Text-discrete header.session_id id) [
    | yes same ↦
        let n : h.latest_event_sequence ≡ 1 =
          ground (arith, find_session-append id t.sessions header) in
        let rows : rows_of id (t.events ++ (header.session_id, started) ∷ []) ≡ started ∷ [] =
          subst (λ i. rows_of i (t.events ++ (header.session_id, started) ∷ []) ≡ started ∷ []) same
            (rw (
              rows_of-append_self header.session_id t.events started,
              o.orphans header.session_id fresh,
            )) in
        (1, omega arith, rw (n, rows) (first, refl))
    | no ne ↦
        rw (rows_of-append_ne header.session_id id t.events started ne)
          (o.logs id h (ground (arith, find_session-append id t.sessions header)))
  ];
  orphans = λ id e. elim (Text-discrete header.session_id id) [
    | yes same ↦ absurd (ground (arith, find_session-append id t.sessions header))
    | no ne ↦
        rw (rows_of-append_ne header.session_id id t.events started ne)
          (o.orphans id (ground (arith, find_session-append id t.sessions header)))
  ];
}

delete-IsOrdered : (t : Tables) (id : Text) → IsOrdered t → IsOrdered (delete_rows id t)
unfolding delete_rows
delete-IsOrdered t id o = record {
  logs = λ other h e. elim (Text-discrete id other) [
    | yes same ↦ absurd (ground (arith, find_session-delete id other t.sessions))
    | no ne ↦
        rw (rows_of-delete_ne id other t.events ne)
          (o.logs other h (ground (arith, find_session-delete id other t.sessions)))
  ];
  orphans = λ other e. elim (Text-discrete id other) [
    | yes same ↦ ground (arith, rows_of-delete id other t.events)
    | no ne ↦
        rw (rows_of-delete_ne id other t.events ne)
          (o.orphans other (ground (arith, find_session-delete id other t.sessions)))
  ];
}

purge-IsOrdered : (io : Io) (t : Tables) → IsOrdered t → IsOrdered (purge_all io t).0
unfolding purge_all
purge-IsOrdered io t o = elim (Option-cases (io 0)) [
  | inl fine ↦ rw (fine, purge_all) IsOrdered-no_tables
  | inr (m, failed) ↦ rw (failed, purge_all) o
]

Step-IsOrdered : {t w : Tables} → Step t w → IsOrdered t → IsOrdered w
Step-IsOrdered {t} (creates io header started e) o =
    let (fresh, live, latest, first, w) = create_session-eq-ok io t header started e in
    rw w (create-IsOrdered t header started o fresh latest first)
Step-IsOrdered {t} (validates io id event delivery me md e) o =
    let (c, same, new, w) = record_validation-eq-ok io t id event delivery me md e in
    rw w (appended-IsOrdered t id event me (advance event) (λ h. refl) _ o c refl)
Step-IsOrdered {t} (resolves io id message_id event me e) o =
    let (c, one, w) = record_resolution-eq-ok io t id event message_id me e in
    rw w (appended-IsOrdered t id event me (advance event) (λ h. refl) _ o c refl)
Step-IsOrdered {t} (ends io id event me e) o =
    let (c, w) = end_session-eq-ok io t id event me e in
    rw w (
      appended-IsOrdered t id event me (end_row event) (end_row-id event) _ o c
        (end_row-latest event c.row c.live))
Step-IsOrdered {t} (deletes io id e) o =
    let (some_ended, w) = delete_ended-eq-ok io t id e in rw w (delete-IsOrdered t id o)
Step-IsOrdered {t} (purges io e) o = subst IsOrdered e (purge-IsOrdered io t o)

-- Whatever is committed from empty tables on, and however the engine fails in between, the events
-- kept of each session are numbered consecutively and end at the latest number of its row.
pub Reach-IsOrdered : {t : Tables} → Reach no_tables t → IsOrdered t
Reach-IsOrdered here = IsOrdered-no_tables
Reach-IsOrdered (next r s) = Step-IsOrdered s (Reach-IsOrdered r)
