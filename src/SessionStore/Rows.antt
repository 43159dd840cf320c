-- ===== src/SessionStore/Rows.antt =====
-- The SQL statements of crates/semantic-engine-session-store/src/lib.rs on the rows of one table.
pub mod Own
use semantic_engine.Common.{
  ℕ, Text, Bool, true, false, Option, none, some, List, [], ◌∷◌, not, ◌&&◌, if◌then◌else◌, leb,
  ◌==◌, ◌=t◌, any, find, retain, ◌+◌, max, map,
}
use semantic_engine.SessionStore.Types.{
  StoredSessionHeader, StoredSessionState, active, ended, StoredEvent, StoredDelivery,
}

-- `WHERE session_id = ?1` on `session_records`.
unfoldable pub find_session : Text → List StoredSessionHeader → Option StoredSessionHeader
find_session id = find λ h. h.session_id =t id

-- `UPDATE session_records SET … WHERE session_id = ?1`
unfoldable pub update_session :
    Text
    → (StoredSessionHeader → StoredSessionHeader)
    → List StoredSessionHeader
    → List StoredSessionHeader
update_session id f = map λ h. if h.session_id =t id then f h else h

module _ {R : Type 0} (sequence : R → ℕ) where
  -- `SELECT MAX(sequence) FROM … WHERE session_id = ?1`, `none` for no row.
  unfoldable pub max_sequence : Text → List (Text × R) → Option ℕ
  max_sequence id [] = none
  max_sequence id ((owner, row) ∷ rows) =
      let later = max_sequence id rows in
      if owner =t id
      then elim later [ none ↦ some (sequence row) | some m ↦ some (max (sequence row) m) ]
      else later

  -- `DELETE … WHERE session_id = ?1 AND sequence <= (MAX(sequence) - ?2)`, given the maximum; a
  -- comparison with `NULL` holds of no row.
  unfoldable pub delete_below : Text → ℕ → Option ℕ → List (Text × R) → List (Text × R)
  delete_below id capacity none rows = rows
  delete_below id capacity (some newest) rows =
      retain (λ r. not (r.0 =t id && leb (sequence r.1 + capacity) newest)) rows

  unfoldable pub trim : Text → ℕ → List (Text × R) → List (Text × R)
  unfolding max_sequence delete_below
  trim id capacity rows = delete_below id capacity (max_sequence id rows) rows

-- The primary keys `(session_id, sequence)` and `(session_id, message_id)`.
unfoldable pub has_event : Text → ℕ → List (Text × StoredEvent) → Bool
has_event id sequence = any λ r. r.0 =t id && r.1.sequence == sequence

unfoldable pub has_delivery : Text → Text → List (Text × StoredDelivery) → Bool
has_delivery id message_id = any λ r. r.0 =t id && r.1.message_id =t message_id

-- `UPDATE session_deliveries SET resolution_emitted = 1 WHERE … AND resolution_emitted = 0`: does it
-- change a row, and the rows after it.
unfoldable pub is_unresolved : Text → Text → Text × StoredDelivery → Bool
is_unresolved id message_id r =
    r.0 =t id && r.1.message_id =t message_id && not r.1.resolution_emitted

unfoldable pub mark_resolved :
    Text → Text → List (Text × StoredDelivery) → List (Text × StoredDelivery)
unfolding is_unresolved
mark_resolved id message_id = map λ r.
    if is_unresolved id message_id r then (r.0, record (r.1) { resolution_emitted = true }) else r
