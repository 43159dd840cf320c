-- ===== src/MemoryStore/Rows.antt =====
-- The SQL statements of crates/semantic-engine-memory-store/src/lib.rs on the rows of the table.
use semantic_engine.Common.{
  ℕ, suc, Text, Bool, true, false, Option, none, some, List, [], ◌∷◌, not, ◌||◌, ◌&&◌,
  if◌then◌else◌, ltb, leb, ◌==◌, ◌=t◌, map,
}
use semantic_engine.MemoryStore.Types.{MemoryState, active, expired, evicted, MemoryEntry, Row}

unfoldable pub is_active : MemoryEntry → Bool
is_active e = elim (e.state) [ active ↦ true | _ ↦ false ]

-- A new state, with the time of the change.
unfoldable pub change_state : MemoryState → ℕ → Row → Row
change_state state now_ms r = record r {
  entry = record (r.entry) { state = state; state_changed_at_ms = some now_ms };
}

-- `UPDATE … SET … WHERE`
unfoldable pub update_where : (Row → Bool) → (Row → Row) → List Row → List Row
update_where p f = map λ r. if p r then f r else r

-- `SELECT COUNT(*) … WHERE`, and the count of rows that an update changes.
unfoldable pub count_where : (Row → Bool) → List Row → ℕ
count_where p [] = 0
count_where p (r ∷ rows) = let n = count_where p rows in if p r then suc n else n

-- `expire_entries`
unfoldable pub has_lapsed : ℕ → Row → Bool
unfolding is_active
has_lapsed now_ms r = is_active r.entry && leb r.entry.expires_at_ms now_ms

unfoldable pub expire_rows : ℕ → List Row → List Row
unfolding has_lapsed change_state update_where
expire_rows now_ms = update_where (has_lapsed now_ms) (change_state expired now_ms)

-- The row that `remember` looks for.
unfoldable pub is_same : Text → Text → Text → Row → Bool
unfolding is_active
is_same context target normalized r =
    r.entry.context_package_sha256 =t context
    && r.entry.target_id =t target
    && r.entry.normalized_expression =t normalized
    && is_active r.entry
    && r.entry.normalization_version == 1

-- `ORDER BY row_id DESC LIMIT 1`
unfoldable pub find_last : (Row → Bool) → List Row → Option Row
find_last p [] = none
find_last p (r ∷ rows) = elim (find_last p rows) [
  | some later ↦ some later
  | none ↦ if p r then some r else none
]

-- `ORDER BY last_used_at_ms ASC, row_id ASC LIMIT 1` among the active rows.
unfoldable pub least_recent : List Row → Option Row
unfolding is_active
least_recent [] = none
least_recent (r ∷ rows) = elim (least_recent rows) [
  | none ↦ if is_active r.entry then some r else none
  | some later ↦
      if is_active r.entry && leb r.entry.last_used_at_ms later.entry.last_used_at_ms
      then some r
      else some later
]

-- The update of `evict_if_full`; a comparison with `NULL` holds of no row.
unfoldable pub evict_row : ℕ → Option Row → List Row → List Row
unfolding update_where change_state
evict_row now_ms none rows = rows
evict_row now_ms (some victim) rows =
    update_where (λ r. r.row_id == victim.row_id) (change_state evicted now_ms) rows

-- `trim_history`: of the rows that are not active, the `keep` latest stay. The rows stand in the
-- order of `row_id`, so a row is among the latest if fewer than `keep` follow it.
unfoldable pub trim_history : ℕ → List Row → List Row
unfolding count_where is_active
trim_history keep [] = []
trim_history keep (r ∷ rows) =
    let rest = trim_history keep rows in
    if is_active r.entry || ltb (count_where (λ x. not (is_active x.entry)) rows) keep
    then r ∷ rest
    else rest

-- `ORDER BY row_id DESC LIMIT`, over the rows that the condition selects.
unfoldable pub latest_where : (Row → Bool) → List Row → List MemoryEntry → List MemoryEntry
latest_where p [] acc = acc
latest_where p (r ∷ rows) acc = latest_where p rows (if p r then r.entry ∷ acc else acc)

unfoldable pub entries_where : (Row → Bool) → List Row → List MemoryEntry
entries_where p [] = []
entries_where p (r ∷ rows) = let rest = entries_where p rows in if p r then r.entry ∷ rest else rest
