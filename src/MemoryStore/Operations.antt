-- ===== src/MemoryStore/Operations.antt =====
-- `RecognitionMemoryStore` of crates/semantic-engine-memory-store/src/lib.rs. A transaction gives
-- the table after its commit, or an error that leaves the table as it was.
use semantic_engine.Common.{
  ℕ, suc, Text, Bool, true, false, Option, none, some, List, [], ◌∷◌, ◌++◌, not, ◌||◌, ◌&&◌,
  if◌then◌else◌, ltb, leb, ◌==◌, ◌=t◌, length, any, find, take, is_empty, to_ascii_lowercase, ◌+◌,
  ◌*◌, ◌/◌, min,
}
use semantic_engine.Common.Results.{Result, ok, err, ◌>>=◌, ◌>>◌, guard, ok_or}
use semantic_engine.Common.Machine.{Io, statement, u64_max}
use semantic_engine.Core.Libraries.{Libraries}
use semantic_engine.Core.Normalize.{normalize_expression}
use semantic_engine.MemoryStore.Types.{
  MemoryPolicy, active, revoked, MemoryEntry, MemoryError, invalid_policy, invalid_entry, missing,
  entropy_unavailable, database, Row, Table,
}
use semantic_engine.MemoryStore.Checks.{
  max_memory_page, normalization_version, validate_context, validate_identifier,
  validate_expression, validate_memory_id, to_i64, hex,
}
use semantic_engine.MemoryStore.Rows.{
  is_active, change_state, update_where, count_where, expire_rows, is_same, find_last, least_recent,
  evict_row, trim_history, latest_where, entries_where,
}

abbrev run : Option Text → Result MemoryError (Unit {0})
run = statement database

abbrev unique_violation : Text
unique_violation = []

-- The engine of the store: its answers, the clock's reading and what `getrandom` filled.
pub record Context : Type 0 where
  pub io : Io
  pub now_ms : ℕ
  pub entropy : Option (List ℕ)

-- `load_entry_by_row` and `load_entry_by_id`
unfoldable pub load_entry :
    Option Text → (Row → Bool) → List Row → Result MemoryError (Option MemoryEntry)
load_entry answer p rows = do
  run answer
  ok (elim (find p rows) [ none ↦ none | some r ↦ some r.entry ])

-- `evict_if_full` after its count: the update runs only if the active rows fill the capacity.
unfoldable pub make_room : Option Text → ℕ → ℕ → List Row → Result MemoryError (List Row)
unfolding count_where is_active least_recent evict_row to_i64
make_room answer capacity now_ms rows =
    if leb capacity (count_where (λ r. is_active r.entry) rows)
    then (to_i64 now_ms >>= λ now.
        run answer >>= λ done. ok (evict_row now_ms (least_recent rows) rows))
    else ok rows

module _ (lib : Libraries) (policy : MemoryPolicy) (c : Context) where
  open c use {io, now_ms, entropy}

  -- The row that `remember` inserts.
  unfoldable pub new_row : List ℕ → Table → Text → Text → Text → Text → Text → ℕ → Row
  unfolding hex
  new_row bytes table context target expression normalized source expires_at_ms = record {
    row_id = table.next_row_id;
    entry = record {
      id = hex bytes;
      context_package_sha256 = context;
      target_id = target;
      expression = expression;
      normalized_expression = normalized;
      normalization_version = normalization_version;
      source_resolution_sha256 = source;
      created_at_ms = now_ms;
      last_used_at_ms = now_ms;
      expires_at_ms = expires_at_ms;
      use_count = 0;
      state = active;
      state_changed_at_ms = none;
    };
  }

  -- The new row, with `evict_if_full`, the insertion and `trim_history`.
  unfoldable pub insert_entry :
      Table → Text → Text → Text → Text → Text → ℕ → Result MemoryError (Table × MemoryEntry)
  unfolding make_room trim_history hex to_i64 load_entry new_row
  insert_entry table context target expression normalized source expires_at_ms = do
    run (io 3)
    rows ← make_room (io 4) policy.capacity now_ms table.rows
    bytes ← ok_or entropy entropy_unavailable
    expires ← to_i64 expires_at_ms
    run (io 5)
    guard (not (any (λ (r : Row). r.entry.id =t hex bytes) rows)) (database unique_violation)
    let row = new_row bytes table context target expression normalized source expires_at_ms
    let history_capacity = min (policy.capacity * 4) u64_max
    limit ← to_i64 history_capacity
    run (io 6)
    let kept = trim_history history_capacity (rows ++ row ∷ [])
    found ← load_entry (io 7) (λ r. r.row_id == table.next_row_id) kept
    loaded ← ok_or found missing
    run (io 8)
    ok (record { rows = kept; next_row_id = suc table.next_row_id }, loaded)

  unfoldable pub remember :
      Table → Text → Text → Text → List ℕ → Result MemoryError (Table × MemoryEntry)
  unfolding validate_context validate_identifier validate_expression hex to_i64 expire_rows
      find_last is_same insert_entry load_entry
  remember table context target_id expression source_resolution = do
    validate_context context
    validate_identifier target_id
    validate_expression expression
    let normalized = normalize_expression lib expression
    guard (not (is_empty normalized)) invalid_entry
    let ttl_ms = policy.ttl / 1000000
    guard (not (ltb u64_max ttl_ms)) invalid_policy
    guard (not (ltb u64_max (now_ms + ttl_ms))) invalid_entry
    let lower = to_ascii_lowercase context
    run (io 0)
    now ← to_i64 now_ms
    run (io 1)
    let t : Table = record table { rows = expire_rows now_ms table.rows }
    run (io 2)
    elim (find_last (is_same lower target_id normalized) t.rows) [
      | some existing ↦ do
        found ← load_entry (io 3) (λ r. r.row_id == existing.row_id) t.rows
        loaded ← ok_or found missing
        run (io 4)
        ok (t, loaded)
      | none ↦
          insert_entry t lower target_id expression normalized (hex source_resolution)
            (now_ms + ttl_ms)
    ]

-- What `lookup` selects: the rows of the context and the normalized expression that are active, for
-- a target that is allowed.
unfoldable pub is_candidate : Text → Text → List Text → Row → Bool
unfolding is_active
is_candidate context normalized allowed r =
    (r.entry.context_package_sha256 =t context
      && r.entry.normalized_expression =t normalized
      && r.entry.normalization_version == 1
      && is_active r.entry)
    && any (λ t. t =t r.entry.target_id) allowed

unfoldable pub is_ok {ℓ μ} : {E : Type μ} {A : Type ℓ} → Result E A → Bool
is_ok (ok a) = true
is_ok (err e) = false

unfoldable pub lookup :
    Libraries
    → Context
    → Table
    → Text
    → Text
    → List Text
    → Result MemoryError (Table × List MemoryEntry)
unfolding validate_context validate_expression validate_identifier to_i64 expire_rows is_candidate
    entries_where is_ok
lookup lib c table context expression allowed = do
  validate_context context
  validate_expression expression
  guard (not (is_empty allowed || any (λ t. not (is_ok (validate_identifier t))) allowed))
      invalid_entry
  let normalized = normalize_expression lib expression
  if is_empty normalized then ok (table, []) else do
    run (c.io 0)
    now ← to_i64 c.now_ms
    run (c.io 1)
    let rows = expire_rows c.now_ms table.rows
    run (c.io 2)
    run (c.io 3)
    ok (
      record table { rows = rows },
      entries_where (is_candidate (to_ascii_lowercase context) normalized allowed) rows,
    )

-- The `UPDATE` of `mark_used` for one identifier.
unfoldable pub is_used : Text → Text → Row → Bool
unfolding is_active
is_used context id r =
    r.entry.id =t id && r.entry.context_package_sha256 =t context && is_active r.entry

unfoldable pub touch : ℕ → Row → Row
touch now_ms r = record r {
  entry = record (r.entry) { last_used_at_ms = now_ms; use_count = r.entry.use_count + 1 };
}

-- The loop of `mark_used`, at statement `n` of the transaction.
unfoldable pub mark_all : Context → Text → ℕ → List Text → List Row → Result MemoryError (List Row)
unfolding validate_memory_id to_i64 is_used touch update_where count_where
mark_all c context n [] rows = ok rows
mark_all c context n (id ∷ ids) rows = do
  validate_memory_id id
  now ← to_i64 c.now_ms
  run (c.io n)
  guard (count_where (is_used context id) rows == 1) missing
  mark_all c context (suc n) ids (update_where (is_used context id) (touch c.now_ms) rows)

unfoldable pub mark_used : Context → Table → Text → List Text → Result MemoryError Table
unfolding validate_context mark_all
mark_used c table context ids = do
  validate_context context
  if is_empty ids then ok table else do
    run (c.io 0)
    rows ← mark_all c (to_ascii_lowercase context) 2 ids table.rows
    run (c.io 1)
    ok (record table { rows = rows })

-- The page that `list` or `list_active` gives of the rows left by `expire_entries`.
unfoldable pub page_of :
    Context → ℕ → (Row → Bool) → List Row → Result MemoryError (List MemoryEntry)
unfolding latest_where
page_of c limit p rows =
    if limit == 0
    then ok []
    else (run (c.io 1) >>= λ done. ok (take limit (latest_where p rows [])))

-- `list` and `list_active` expire entries outside a transaction, so that their table stays also if
-- the page fails.
unfoldable pub list_where :
    Context → Table → Text → ℕ → (Row → Bool) → Table × Result MemoryError (List MemoryEntry)
unfolding validate_context to_i64 expire_rows page_of
list_where c table context limit p =
    elim (validate_context context >>= λ valid.
    guard (not (ltb max_memory_page limit)) invalid_entry >>= λ bounded.
    to_i64 c.now_ms >>= λ now. run (c.io 0)) [
      | err e ↦ (table, err e)
      | ok done ↦
          let rows = expire_rows c.now_ms table.rows in
          (record table { rows = rows }, page_of c limit p rows)
    ]

abbrev pub list : Context → Table → Text → ℕ → Table × Result MemoryError (List MemoryEntry)
list c table context limit =
    list_where c table context limit
      (λ r. r.entry.context_package_sha256 =t to_ascii_lowercase context)

abbrev pub list_active : Context → Table → Text → ℕ → Table × Result MemoryError (List MemoryEntry)
list_active c table context limit =
    list_where c table context limit
      (λ r. r.entry.context_package_sha256 =t to_ascii_lowercase context && is_active r.entry)

-- `revoke`: the update is on its own, so that it stays also if the entry cannot be loaded.
unfoldable pub revoke : Context → Table → Text → Text → Table × Result MemoryError MemoryEntry
unfolding validate_context validate_memory_id to_i64 is_used count_where change_state update_where
    load_entry
revoke c table context id =
    let hit = is_used (to_ascii_lowercase context) id in
    elim (validate_context context >>= λ valid. validate_memory_id id >>= λ named.
    to_i64 c.now_ms >>= λ now.
    run (c.io 0) >>= λ done. guard (not (count_where hit table.rows == 0)) missing) [
      | err e ↦ (table, err e)
      | ok changed ↦
          let rows = update_where hit (change_state revoked c.now_ms) table.rows in
          (
            record table { rows = rows },
            load_entry (c.io 1) (λ r. r.entry.id =t id) rows >>= λ found. ok_or found missing,
          )
    ]

-- `purge_all`: a `VACUUM` that fails is an error after the deletion.
unfoldable pub purge_all : Context → Table → Table × Result MemoryError ℕ
purge_all c table = elim (c.io 0) [
  | some message ↦ (table, err (database message))
  | none ↦
      let deleted = length table.rows in
      (
        record table { rows = [] },
        (if deleted == 0 then ok deleted else (run (c.io 1) >>= λ done. ok deleted)),
      )
]
