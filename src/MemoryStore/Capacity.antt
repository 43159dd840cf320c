-- ===== src/MemoryStore/Capacity.antt =====
-- The bounds of crates/semantic-engine-memory-store/src/lib.rs on its rows.
use semantic_engine.Common.{
  ℕ, Text, Bool, Option, none, some, List, [], ◌∷◌, ◌++◌, not, ◌&&◌, leb, ◌==◌, ◌+◌, ◌*◌, ◌/◌, ◌⊎◌,
  ◌≤◌, ◌<◌, min, ◌≡◌, refl, arith, to_ascii_lowercase, Option-cases, Bool-cases, inl, inr,
}
use semantic_engine.Common.Results.{ok, Result-cases}
use semantic_engine.Common.Machine.{u64_max}
use semantic_engine.Core.Normalize.{normalize_expression}
use semantic_engine.Core.Libraries.{Libraries}
use semantic_engine.MemoryStore.Types.{MemoryPolicy, evicted, MemoryEntry, Row, Table}
use semantic_engine.MemoryStore.Rows.{
  is_active, change_state, update_where, count_where, expire_rows, least_recent, evict_row,
  trim_history, find_last, is_same,
}
use semantic_engine.MemoryStore.Checks.{hex}
use semantic_engine.MemoryStore.Operations.{Context, new_row, make_room, insert_entry, remember}

abbrev pub live : Row → Bool
live r = is_active r.entry

abbrev pub past : Row → Bool
past r = not (is_active r.entry)

pub count-append :
    (p : Row → Bool) (xs ys : List Row)
    → count_where p (xs ++ ys) ≡ count_where p xs + count_where p ys
unfolding count_where
count-append p [] ys = omega arith
count-append p (x ∷ xs) ys = ground (arith, count-append p xs ys)

count-expire-le :
    (now : ℕ) (rows : List Row) → count_where live (expire_rows now rows) ≤ count_where live rows
unfolding count_where expire_rows is_active
count-expire-le now [] = omega arith
count-expire-le now (r ∷ rows) = ground (arith, count-expire-le now rows)

-- The rows that an eviction hits cease to be active.
count-evict :
    (now n : ℕ) (rows : List Row)
    → count_where live (update_where (λ r. r.row_id == n) (change_state evicted now) rows)
        + count_where (λ r. r.row_id == n && live r) rows
      ≡ count_where live rows
unfolding count_where update_where change_state is_active
count-evict now n [] = omega arith
count-evict now n (r ∷ rows) = ground (arith, count-evict now n rows)

least_recent-some :
    (rows : List Row) {v : Row}
    → least_recent rows ≡ some v
    → 1 ≤ count_where (λ r. r.row_id == v.row_id && live r) rows
unfolding count_where least_recent
least_recent-some [] e = cc
least_recent-some (r ∷ rows) {v} e = elim (Option-cases (least_recent rows)) [
  | inl miss ↦ ground arith
  | inr (x, hit) ↦ ground (arith, least_recent-some rows hit)
]

least_recent-none : (rows : List Row) → least_recent rows ≡ none → count_where live rows ≡ 0
unfolding count_where least_recent
least_recent-none [] e = refl
least_recent-none (r ∷ rows) e = ground (arith, least_recent-none rows)

evict_row-lt :
    (now : ℕ) (rows : List Row)
    → 0 < count_where live rows
    → count_where live (evict_row now (least_recent rows) rows) < count_where live rows
unfolding evict_row
evict_row-lt now rows h = elim (Option-cases (least_recent rows)) [
  | inl miss ↦ absurd (omega (arith, least_recent-none rows miss))
  | inr (v, hit) ↦
      rw (hit, evict_row) (omega (arith, count-evict now v.row_id rows, least_recent-some rows hit))
]

make_room-lt :
    (answer : Option Text) (capacity now : ℕ) (rows : List Row) {kept : List Row}
    → 0 < capacity
    → count_where live rows ≤ capacity
    → make_room answer capacity now rows ≡ ok kept
    → count_where live kept < capacity
unfolding make_room
make_room-lt answer capacity now rows h bound e =
    elim (Bool-cases (leb capacity (count_where live rows))) [
      | inl full ↦ ground (arith, evict_row-lt now rows)
      | inr room ↦ ground arith
    ]

count-trim_history :
    (keep : ℕ) (rows : List Row)
    → (count_where live (trim_history keep rows) ≡ count_where live rows)
      × (count_where past (trim_history keep rows) ≤ keep)
      × (count_where past (trim_history keep rows) ≤ count_where past rows)
unfolding count_where trim_history
count-trim_history keep [] = (refl, omega arith, omega arith)
count-trim_history keep (r ∷ rows) = ground (arith, count-trim_history keep rows)

-- What an insertion leaves: the table that `trim_history` keeps of the rows with the new one.
pub insert_entry-rows :
    (lib : Libraries) (policy : MemoryPolicy) (c : Context) (t : Table)
    (context target expression normalized source : Text) (expires : ℕ) {w : Table} {e : MemoryEntry}
    → insert_entry lib policy c t context target expression normalized source expires ≡ ok (w, e)
    → (rows : List Row) × (row : Row) × (keep : ℕ) × (make_room
          (c.io 4)
          policy.capacity
          c.now_ms
          t.rows
        ≡ ok rows)
      × (keep ≤ policy.capacity * 4)
      × (w.rows ≡ trim_history keep (rows ++ row ∷ []))
unfolding insert_entry
insert_entry-rows lib policy c t context target expression normalized source expires e =
    elim (Result-cases (make_room (c.io 4) policy.capacity c.now_ms t.rows)) [
      | inr (x, failed) ↦ absurd (ground arith)
      | inl (rows, made) ↦ elim (Option-cases c.entropy) [
        | inl dry ↦ absurd (ground arith)
        | inr (bytes, drawn) ↦ (
          rows,
          new_row lib policy c bytes t context target expression normalized source expires,
          min (policy.capacity * 4) u64_max,
          made,
          omega arith,
          ground arith,
        )
      ]
    ]

-- A successful call finds an entry, or inserts one, in the rows left by `expire_entries`.
remember-cases :
    (lib : Libraries) (policy : MemoryPolicy) (c : Context) (t : Table)
    (context target expression : Text) (source : List ℕ) {w : Table} {e : MemoryEntry}
    → remember lib policy c t context target expression source ≡ ok (w, e)
    → (w.rows ≡ expire_rows c.now_ms t.rows)
      ⊎ (insert_entry lib policy c
            (record t { rows = expire_rows c.now_ms t.rows })
            (to_ascii_lowercase context)
            target
            expression
            (normalize_expression lib expression)
            (hex source)
            (c.now_ms + policy.ttl / 1000000)
          ≡ ok (w, e))
unfolding remember
remember-cases lib policy c t context target expression source {w} {e} h =
    let rows = expire_rows c.now_ms t.rows in
    let same = is_same (to_ascii_lowercase context) target (normalize_expression lib expression) in
    elim (Option-cases (find_last same rows)) [
      | inl fresh ↦ inr (ground arith)
      | inr (x, old) ↦ inl (ground arith)
    ]

-- After anything is remembered the active entries are within the capacity, if they were before.
pub remember-capacity :
    (lib : Libraries) (policy : MemoryPolicy) (c : Context) (t : Table)
    (context target expression : Text) (source : List ℕ) {w : Table} {e : MemoryEntry}
    → 0 < policy.capacity
    → count_where live t.rows ≤ policy.capacity
    → remember lib policy c t context target expression source ≡ ok (w, e)
    → count_where live w.rows ≤ policy.capacity
unfolding count_where
remember-capacity lib policy c t context target expression source {w} {e} h bound ok_w =
    let fewer = count-expire-le c.now_ms t.rows in
    elim (remember-cases lib policy c t context target expression source ok_w) [
      | inl same ↦ rw same (omega (arith, fewer))
      | inr inserted ↦
          let (rows, row, keep, made, kept, w') =
            insert_entry-rows lib policy c (record t { rows = expire_rows c.now_ms t.rows })
              (to_ascii_lowercase context) target expression (normalize_expression lib expression)
              (hex source) (c.now_ms + policy.ttl / 1000000) inserted in
          let room =
            make_room-lt (c.io 4) policy.capacity c.now_ms (expire_rows c.now_ms t.rows) h
              (omega (arith, fewer)) made in
          rw w' (
            ground (
              arith,
              count-trim_history keep (rows ++ row ∷ []),
              count-append live rows (row ∷ []),
            ))
    ]

-- And of the entries that are no longer active, an insertion keeps at most four times the capacity.
pub insert_entry-history :
    (lib : Libraries) (policy : MemoryPolicy) (c : Context) (t : Table)
    (context target expression normalized source : Text) (expires : ℕ) {w : Table} {e : MemoryEntry}
    → insert_entry lib policy c t context target expression normalized source expires ≡ ok (w, e)
    → count_where past w.rows ≤ policy.capacity * 4
insert_entry-history lib policy c t context target expression normalized source expires h =
    let (rows, row, keep, made, kept, w') =
      insert_entry-rows lib policy c t context target expression normalized source expires h in
    rw w' (omega (arith, (count-trim_history keep (rows ++ row ∷ [])).1, kept))
