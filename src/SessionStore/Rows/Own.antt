-- ===== src/SessionStore/Rows/Own.antt =====
-- The rows of one session, and what the SQL statements of
-- crates/semantic-engine-session-store/src/lib.rs do to them.
use semantic_engine.Common.{
  ℕ, Text, Bool, Option, none, some, List, [], ◌∷◌, ◌++◌, not, ◌&&◌, if◌then◌else◌, leb, ◌=t◌,
  retain, ◌+◌, max, ◌≡◌, ◌≢◌, refl, arith,
}
use semantic_engine.SessionStore.Types.{StoredSessionHeader}
use semantic_engine.SessionStore.Rows.{
  find_session, update_session, max_sequence, delete_below, trim,
}

module _ {R : Type 0} where
  -- The rows of the session, in their order.
  abbrev pub rows_of : Text → List (Text × R) → List R
  rows_of id [] = []
  rows_of id ((owner, row) ∷ rows) =
      let later = rows_of id rows in if owner =t id then row ∷ later else later

  pub rows_of-append :
      (id : Text) (xs ys : List (Text × R)) → rows_of id (xs ++ ys) ≡ rows_of id xs ++ rows_of id ys
  rows_of-append id [] ys = refl
  rows_of-append id ((owner, row) ∷ xs) ys = ground (arith, rows_of-append id xs ys)

  pub rows_of-append_self :
      (id : Text) (xs : List (Text × R)) (r : R)
      → rows_of id (xs ++ (id, r) ∷ []) ≡ rows_of id xs ++ r ∷ []
  rows_of-append_self id xs r = ground (arith, rows_of-append id xs ((id, r) ∷ []))

  pub rows_of-append_ne :
      (id other : Text) (xs : List (Text × R)) (r : R)
      → id ≢ other
      → rows_of other (xs ++ (id, r) ∷ []) ≡ rows_of other xs
  rows_of-append_ne id other [] r ne = ground arith
  rows_of-append_ne id other ((owner, row) ∷ xs) r ne =
      ground (arith, rows_of-append_ne id other xs r ne)

  module _ (sequence : R → ℕ) where
    -- The greatest number of the rows, and the rows within `capacity` of it.
    abbrev pub newest : List R → Option ℕ
    newest [] = none
    newest (r ∷ rs) = elim (newest rs) [
      | none ↦ some (sequence r)
      | some m ↦ some (max (sequence r) m)
    ]

    abbrev pub keep_above : ℕ → Option ℕ → List R → List R
    keep_above capacity none rs = rs
    keep_above capacity (some m) rs = retain (λ r. not (leb (sequence r + capacity) m)) rs

    max_sequence-newest :
        (id : Text) (rows : List (Text × R))
        → max_sequence sequence id rows ≡ newest (rows_of id rows)
    unfolding max_sequence
    max_sequence-newest id [] = refl
    max_sequence-newest id ((owner, row) ∷ rows) = ground (arith, max_sequence-newest id rows)

    rows_of-retain :
        (id other : Text) (p : R → Bool) (rows : List (Text × R))
        → rows_of other (retain (λ r. not (r.0 =t id && p r.1)) rows) ≡ (
            if id =t other
            then retain (λ r. not (p r)) (rows_of other rows)
            else rows_of other rows)
    rows_of-retain id other p [] = ground arith
    rows_of-retain id other p ((owner, row) ∷ rows) = ground (arith, rows_of-retain id other p rows)

    rows_of-delete_below :
        (id other : Text) (capacity : ℕ) (m : Option ℕ) (rows : List (Text × R))
        → rows_of other (delete_below sequence id capacity m rows)
          ≡ (if id =t other then keep_above capacity m (rows_of other rows) else rows_of other rows)
    unfolding delete_below
    rows_of-delete_below id other capacity none rows = ground arith
    rows_of-delete_below id other capacity (some m) rows =
        rows_of-retain id other (λ r. leb (sequence r + capacity) m) rows

    pub rows_of-trim_self :
        (id : Text) (capacity : ℕ) (rows : List (Text × R))
        → rows_of id (trim sequence id capacity rows)
          ≡ keep_above capacity (newest (rows_of id rows)) (rows_of id rows)
    unfolding trim
    rows_of-trim_self id capacity rows = ground (
      arith,
      max_sequence-newest id rows,
      rows_of-delete_below id id capacity (max_sequence sequence id rows) rows,
    )

    pub rows_of-trim_ne :
        (id other : Text) (capacity : ℕ) (rows : List (Text × R))
        → id ≢ other
        → rows_of other (trim sequence id capacity rows) ≡ rows_of other rows
    unfolding trim
    rows_of-trim_ne id other capacity rows ne =
        ground (arith, rows_of-delete_below id other capacity (max_sequence sequence id rows) rows)

-- The update of one row reaches that row alone.
pub find_session-update_self :
    (id : Text) (f : StoredSessionHeader → StoredSessionHeader) (hs : List StoredSessionHeader)
    {h : StoredSessionHeader}
    → ((x : StoredSessionHeader) → (f x).session_id ≡ x.session_id)
    → find_session id hs ≡ some h
    → find_session id (update_session id f hs) ≡ some (f h)
unfolding find_session update_session
find_session-update_self id f [] keep e = cc
find_session-update_self id f (x ∷ hs) {h} keep e =
    ground (arith, keep x, find_session-update_self id f hs {h = h} keep)

pub find_session-update_ne :
    (id other : Text) (f : StoredSessionHeader → StoredSessionHeader)
    (hs : List StoredSessionHeader)
    → ((x : StoredSessionHeader) → (f x).session_id ≡ x.session_id)
    → id ≢ other
    → find_session other (update_session id f hs) ≡ find_session other hs
unfolding find_session update_session
find_session-update_ne id other f [] keep ne = refl
find_session-update_ne id other f (x ∷ hs) keep ne =
    ground (arith, keep x, find_session-update_ne id other f hs keep ne)

pub find_session-append :
    (id : Text) (hs : List StoredSessionHeader) (h : StoredSessionHeader)
    → find_session id (hs ++ h ∷ []) ≡ elim (find_session id hs) [
      | none ↦ if h.session_id =t id then some h else none
      | some x ↦ some x
    ]
unfolding find_session
find_session-append id [] h = refl
find_session-append id (x ∷ hs) h = ground (arith, find_session-append id hs h)

pub find_session-delete :
    (id other : Text) (hs : List StoredSessionHeader)
    → find_session other (retain (λ h. not (h.session_id =t id)) hs)
      ≡ (if id =t other then none else find_session other hs)
unfolding find_session
find_session-delete id other [] = ground arith
find_session-delete id other (x ∷ hs) = ground (arith, find_session-delete id other hs)

pub rows_of-delete :
    {R : Type 0} (id other : Text) (rows : List (Text × R))
    → rows_of other (retain (λ r. not (r.0 =t id)) rows)
      ≡ (if id =t other then [] else rows_of other rows)
rows_of-delete id other [] = ground arith
rows_of-delete id other ((owner, row) ∷ rows) = ground (arith, rows_of-delete id other rows)

pub rows_of-delete_ne :
    {R : Type 0} (id other : Text) (rows : List (Text × R))
    → id ≢ other
    → rows_of other (retain (λ r. not (r.0 =t id)) rows) ≡ rows_of other rows
rows_of-delete_ne id other rows ne = ground (arith, rows_of-delete id other rows)
