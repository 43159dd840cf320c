-- ===== src/MemoryStore/Recall.antt =====
-- What `lookup` of crates/semantic-engine-memory-store/src/lib.rs returns, and what `revoke` and
-- expiry take away from it.
use semantic_engine.Common.{
  ℕ, Text, false, List, [], ◌∷◌, ◌&&◌, if◌then◌else◌, ltb, is_empty, All, to_ascii_lowercase, ◌≡◌,
  ◌≢◌, refl, arith, Bool-cases, inl, inr,
}
use semantic_engine.Common.Results.{ok}
use semantic_engine.Core.Libraries.{Libraries}
use semantic_engine.Core.Normalize.{normalize_expression}
use semantic_engine.MemoryStore.Types.{revoked, MemoryEntry, Row, Table}
use semantic_engine.MemoryStore.Rows.{change_state, update_where, expire_rows, entries_where}
use semantic_engine.MemoryStore.Operations.{Context, is_candidate, is_used, lookup, revoke}

module _ (now : ℕ) (context normalized : Text) (allowed : List Text) where
  -- Expiry in place and a selection of what is active come to a selection of what has not lapsed.
  entries_where-expire :
      (rows : List Row)
      → entries_where (is_candidate context normalized allowed) (expire_rows now rows)
        ≡ entries_where
            (λ r. is_candidate context normalized allowed r && ltb now r.entry.expires_at_ms)
            rows
  unfolding entries_where expire_rows is_candidate
  entries_where-expire [] = refl
  entries_where-expire (r ∷ rows) = ground (arith, entries_where-expire rows)

-- `lookup` returns, oldest first, exactly the entries of the table for the context and the
-- normalized expression that are active, have not reached their expiry and name an allowed target;
-- a text with nothing to normalize finds none.
pub lookup-entries :
    (lib : Libraries) (c : Context) (t : Table) (context expression : Text) (allowed : List Text)
    {w : Table} {es : List MemoryEntry}
    → lookup lib c t context expression allowed ≡ ok (w, es)
    → let normalized = normalize_expression lib expression in
      es ≡ (
        if is_empty normalized
        then []
        else entries_where
            (λ r.
              is_candidate (to_ascii_lowercase context) normalized allowed r
              && ltb c.now_ms r.entry.expires_at_ms)
            t.rows)
unfolding lookup
lookup-entries lib c t context expression allowed e = ground (
  arith,
  entries_where-expire c.now_ms (to_ascii_lowercase context) (normalize_expression lib expression)
      allowed t.rows,
)

-- No row answers to the identifier in the context.
abbrev pub Forgotten : Text → Text → List Row → Type 0
Forgotten context id = All λ r. is_used context id r ≡ false

revoked-Forgotten :
    (now : ℕ) (context id : Text) (rows : List Row)
    → Forgotten context id (update_where (is_used context id) (change_state revoked now) rows)
unfolding update_where change_state is_used
revoked-Forgotten now context id [] = tt
revoked-Forgotten now context id (r ∷ rows) = (ground arith, revoked-Forgotten now context id rows)

entries-Forgotten :
    (context normalized id : Text) (allowed : List Text) (now : ℕ) (rows : List Row)
    → Forgotten context id rows
    → All
        (λ (e : MemoryEntry). e.id ≢ id)
        (entries_where
          (λ r. is_candidate context normalized allowed r && ltb now r.entry.expires_at_ms)
          rows)
unfolding entries_where is_candidate is_used
entries-Forgotten context normalized id allowed now [] f = tt
entries-Forgotten context normalized id allowed now (r ∷ rows) f =
    let rest = entries-Forgotten context normalized id allowed now rows f.1 in
    elim (Bool-cases (is_candidate context normalized allowed r && ltb now r.entry.expires_at_ms)) [
      | inl hit ↦ rw hit (ground (arith, f.0), rest)
      | inr miss ↦ rw miss rest
    ]

revoke-rows :
    (c : Context) (t : Table) (context id : Text) {e : MemoryEntry}
    → (revoke c t context id).1 ≡ ok e
    → (revoke c t context id).0.rows
      ≡ update_where
          (is_used (to_ascii_lowercase context) id)
          (change_state revoked c.now_ms)
          t.rows
unfolding revoke
revoke-rows c t context id h = ground arith

-- Once an entry is revoked in its context, a lookup in that context does not return it, whatever
-- its expression, its targets and its time.
pub lookup-revoke :
    (lib : Libraries) (c later : Context) (t : Table) (context id expression : Text)
    (allowed : List Text) {e : MemoryEntry} {w : Table} {es : List MemoryEntry}
    → (revoke c t context id).1 ≡ ok e
    → lookup lib later (revoke c t context id).0 context expression allowed ≡ ok (w, es)
    → All (λ (x : MemoryEntry). x.id ≢ id) es
lookup-revoke lib c later t context id expression allowed r l =
    let normalized = normalize_expression lib expression in
    let gone = revoked-Forgotten c.now_ms (to_ascii_lowercase context) id t.rows in
    rw (lookup-entries lib later (revoke c t context id).0 context expression allowed l)
      (elim (Bool-cases (is_empty normalized)) [
        | inl blank ↦ rw blank tt
        | inr words ↦
            rw (words, revoke-rows c t context id r)
              (entries-Forgotten (to_ascii_lowercase context) normalized id allowed later.now_ms _
                gone)
      ])
