-- ===== src/SessionStore/Window.antt =====
-- The event log of a session of crates/semantic-engine-session-store/src/lib.rs as a window: what
-- `trim_events` keeps of consecutively numbered rows.
use semantic_engine.Common.{
  ℕ, suc, Text, some, List, [], ◌∷◌, ◌++◌, ltb, length, trim_front, ◌+◌, ◌≤◌, ◌<◌, ◌≡◌, refl, arith,
  Bool-cases, inl, inr,
}
use semantic_engine.SessionStore.Types.{StoredEvent}
use semantic_engine.SessionStore.Rows.{trim}
use semantic_engine.SessionStore.Rows.Own.{
  rows_of, newest, keep_above, rows_of-append_self, rows_of-trim_self,
}

abbrev number : StoredEvent → ℕ
number e = e.sequence

-- The events are numbered consecutively from the first number up to the last.
abbrev pub Runs : ℕ → ℕ → List StoredEvent → Type 0
Runs first last [] = first ≡ suc last
Runs first last (e ∷ es) = (e.sequence ≡ first) × Runs (suc first) last es

Runs-length :
    (first last : ℕ) (es : List StoredEvent) → Runs first last es → first + length es ≡ suc last
Runs-length first last [] r = omega arith
Runs-length first last (e ∷ es) r = omega (arith, Runs-length (suc first) last es r.1)

pub Runs-append :
    (first last : ℕ) (es : List StoredEvent) (e : StoredEvent)
    → Runs first last es
    → e.sequence ≡ suc last
    → Runs first (suc last) (es ++ e ∷ [])
Runs-append first last [] e r h = omega arith
Runs-append first last (x ∷ es) e r h = (r.0, Runs-append (suc first) last es e r.1 h)

newest-Runs :
    (first last : ℕ) (e : StoredEvent) (es : List StoredEvent)
    → Runs first last (e ∷ es)
    → newest number (e ∷ es) ≡ some last
newest-Runs first last e [] r = ground arith
newest-Runs first last e (x ∷ es) r =
    ground (arith, newest-Runs (suc first) last x es r.1, Runs-length (suc first) last (x ∷ es) r.1)

keep_all :
    (capacity first last : ℕ) (es : List StoredEvent)
    → Runs first last es
    → last < first + capacity
    → keep_above number capacity (some last) es ≡ es
keep_all capacity first last [] r h = refl
keep_all capacity first last (e ∷ es) r h =
    ground (arith, keep_all capacity (suc first) last es r.1)

keep_above-trim_front :
    (capacity first last : ℕ) (es : List StoredEvent)
    → Runs first last es
    → keep_above number capacity (some last) es ≡ trim_front capacity es
keep_above-trim_front capacity first last [] r = refl
keep_above-trim_front capacity first last (e ∷ es) r = ground (
  arith,
  keep_above-trim_front capacity (suc first) last es r.1,
  keep_all capacity (suc first) last es r.1,
  Runs-length (suc first) last es r.1,
)

pub Runs-trim_front :
    (capacity first last : ℕ) (es : List StoredEvent)
    → 1 ≤ first
    → Runs first last es
    → (from : ℕ) × (1 ≤ from) × Runs from last (trim_front capacity es)
Runs-trim_front capacity first last [] p r = (first, p, r)
Runs-trim_front capacity first last (e ∷ es) p r =
    elim (Bool-cases (ltb capacity (suc (length es)))) [
      | inl over ↦ rw over (Runs-trim_front capacity (suc first) last es (omega arith) r.1)
      | inr fits ↦ rw fits (first, p, r)
    ]

newest-append :
    (first last : ℕ) (es : List StoredEvent) (e : StoredEvent)
    → Runs first (suc last) (es ++ e ∷ [])
    → newest number (es ++ e ∷ []) ≡ some (suc last)
newest-append first last [] e r = newest-Runs first (suc last) e [] r
newest-append first last (x ∷ es) e r = newest-Runs first (suc last) x (es ++ e ∷ []) r

-- Appending the next event and trimming keeps the newest events of the session.
pub append-window :
    (id : Text) (capacity first last : ℕ) (rows : List (Text × StoredEvent)) (e : StoredEvent)
    → Runs first last (rows_of id rows)
    → e.sequence ≡ suc last
    → rows_of id (trim (λ (x : StoredEvent). x.sequence) id capacity (rows ++ (id, e) ∷ []))
      ≡ trim_front capacity (rows_of id rows ++ e ∷ [])
append-window id capacity first last rows e r h =
    let es = rows_of id rows in
    let r' = Runs-append first last es e r h in
    rw
      (
        rows_of-trim_self number id capacity (rows ++ (id, e) ∷ []),
        rows_of-append_self,
        newest-append first last es e r',
      )
      (keep_above-trim_front capacity first (suc last) (es ++ e ∷ []) r')
