-- ===== src/SessionStore/Loading.antt =====
-- `load_sessions` of crates/semantic-engine-session-store/src/lib.rs.
use semantic_engine.Common.{
  ℕ, Text, List, [], ◌∷◌, ◌+◌, leb, ◌=t◌, if◌then◌else◌, retain, take, map,
}
use semantic_engine.Common.Results.{Result, ok, ◌>>=◌, ◌>>◌}
use semantic_engine.Common.Machine.{Io, statement}
use semantic_engine.SessionStore.Types.{
  StoredSessionHeader, StoredEvent, StoredDelivery, SessionStoreError, database, Tables,
}

abbrev pub max_sessions : ℕ
max_sessions = 10000

pub record StoredSession : Type 0 where
  pub header : StoredSessionHeader
  pub events : List StoredEvent
  pub deliveries : List StoredDelivery

-- `ORDER BY .. ASC` of a number
module _ {ℓ} {A : Type ℓ} (number : A → ℕ) where
  unfoldable pub insert_by : A → List A → List A
  insert_by a [] = a ∷ []
  insert_by a (x ∷ xs) =
      let rest = insert_by a xs in if leb (number a) (number x) then a ∷ x ∷ xs else x ∷ rest

  unfoldable pub order_by : List A → List A
  unfolding insert_by
  order_by [] = []
  order_by (x ∷ xs) = insert_by x (order_by xs)

unfoldable pub load_events : Text → Tables → List StoredEvent
unfolding order_by
load_events session_id t =
    order_by (λ (e : StoredEvent). e.sequence)
      (map (λ (r : Text × StoredEvent). r.1)
        (retain (λ (r : Text × StoredEvent). r.0 =t session_id) t.events))

unfoldable pub load_deliveries : Text → Tables → List StoredDelivery
unfolding order_by
load_deliveries session_id t =
    order_by (λ (d : StoredDelivery). d.sequence)
      (map (λ (r : Text × StoredDelivery). r.1)
        (retain (λ (r : Text × StoredDelivery). r.0 =t session_id) t.deliveries))

-- The events and the deliveries of each header, with the number of the next statement
unfoldable pub load_rest :
    Io → ℕ → Tables → List StoredSessionHeader → Result SessionStoreError (List StoredSession)
unfolding load_events load_deliveries
load_rest io k t [] = ok []
load_rest io k t (header ∷ headers) = do
  statement database (io k)
  statement database (io (k + 1))
  others ← load_rest io (k + 2) t headers
  ok (
      record {
        header = header;
        events = load_events header.session_id t;
        deliveries = load_deliveries header.session_id t;
      }
      ∷ others)

unfoldable pub load_sessions : Io → Tables → Result SessionStoreError (List StoredSession)
unfolding order_by load_rest
load_sessions io t = do
  statement database (io 0)
  load_rest io 1 t
      (take max_sessions (order_by (λ (h : StoredSessionHeader). h.created_at_ms) t.sessions))
