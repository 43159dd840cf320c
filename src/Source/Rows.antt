-- ===== src/Source/Rows.antt =====
-- The rows of the tables of crates/semantic-engine-source/src/lib.rs, by their primary keys.
use semantic_engine.Common.{
  ℕ, Text, Bool, false, none, some, List, [], ◌∷◌, ◌++◌, ◌&&◌, not, ◌=t◌, ◌==◌, retain,
  if◌then◌else◌, ◌≡◌, ◌≢◌, refl, arith, Bool-cases, inl, inr,
}
use semantic_engine.Source.Types.{SourceDesiredState, same_state, Row, Checkpoint}
use semantic_engine.Source.Store.{
  find_row, update_row, find_checkpoint, at_revision, to_switch, put_checkpoint,
}

-- No two rows have the same primary key.
abbrev pub IsKeyed : List Row → Type 0
IsKeyed [] = Unit
IsKeyed (r ∷ rs) = (find_row r.source_id rs ≡ none) × IsKeyed rs

pub at_revision-none :
    (id : Text) (n : ℕ) (rs : List Row) → find_row id rs ≡ none → at_revision id n rs ≡ false
unfolding at_revision find_row
at_revision-none id n [] gone = refl
at_revision-none id n (r ∷ rs) gone = ground (arith, at_revision-none id n rs)

pub to_switch-none :
    (id : Text) (n : ℕ) (state : SourceDesiredState) (rs : List Row)
    → find_row id rs ≡ none
    → to_switch id n state rs ≡ false
unfolding to_switch find_row
to_switch-none id n state [] gone = refl
to_switch-none id n state (r ∷ rs) gone = ground (arith, to_switch-none id n state rs)

-- With the primary key the tests of the statements are tests of the one row.
pub at_revision-row :
    (id : Text) (n : ℕ) (rs : List Row) {row : Row}
    → IsKeyed rs
    → find_row id rs ≡ some row
    → at_revision id n rs ≡ (row.revision == n)
unfolding at_revision find_row
at_revision-row id n [] keyed found = cc
at_revision-row id n (r ∷ rs) {row} (fresh, keyed) found =
    ground (arith, fresh, at_revision-none id n rs, at_revision-row id n rs {row = row} keyed)

pub to_switch-row :
    (id : Text) (n : ℕ) (state : SourceDesiredState) (rs : List Row) {row : Row}
    → IsKeyed rs
    → find_row id rs ≡ some row
    → to_switch id n state rs ≡ (row.revision == n && not (same_state row.desired_state state))
unfolding to_switch find_row
to_switch-row id n state [] keyed found = cc
to_switch-row id n state (r ∷ rs) {row} (fresh, keyed) found =
    ground
      (arith, fresh, to_switch-none id n state rs, to_switch-row id n state rs {row = row} keyed)

-- A change of the row of a source that keeps its key
module _ (id : Text) (f : Row → Row) (same : (r : Row) → (f r).source_id ≡ r.source_id) where
  pub find_row-update_self :
      (rs : List Row) {row : Row}
      → find_row id rs ≡ some row
      → find_row id (update_row id f rs) ≡ some (f row)
  unfolding find_row update_row
  find_row-update_self [] found = cc
  find_row-update_self (r ∷ rs) {row} found =
      ground (arith, same r, find_row-update_self rs {row = row})

  pub find_row-update_none :
      (other : Text) (rs : List Row)
      → find_row other rs ≡ none
      → find_row other (update_row id f rs) ≡ none
  unfolding find_row update_row
  find_row-update_none other [] gone = refl
  find_row-update_none other (r ∷ rs) gone = ground (arith, same r, find_row-update_none other rs)

  pub find_row-update_ne :
      (other : Text) (rs : List Row)
      → other ≢ id
      → find_row other (update_row id f rs) ≡ find_row other rs
  unfolding find_row update_row
  find_row-update_ne other [] ne = refl
  find_row-update_ne other (r ∷ rs) ne = ground (arith, same r, find_row-update_ne other rs)

  pub update_row-IsKeyed : (rs : List Row) → IsKeyed rs → IsKeyed (update_row id f rs)
  unfolding update_row
  update_row-IsKeyed [] keyed = tt
  update_row-IsKeyed (r ∷ rs) (fresh, keyed) = elim (Bool-cases (r.source_id =t id)) [
    | inl it ↦
        rw (it, update_row)
          (rw (same r) (find_row-update_none r.source_id rs fresh), update_row-IsKeyed rs keyed)
    | inr other ↦
        rw (other, update_row)
          (find_row-update_none r.source_id rs fresh, update_row-IsKeyed rs keyed)
  ]

pub find_row-append :
    (id : Text) (rs : List Row) (row : Row)
    → find_row id (rs ++ row ∷ []) ≡ (elim (find_row id rs) [
      | some r ↦ some r
      | none ↦ if row.source_id =t id then some row else none
    ])
unfolding find_row
find_row-append id [] row = refl
find_row-append id (r ∷ rs) row = ground (arith, find_row-append id rs row)

pub append-IsKeyed :
    (rs : List Row) (row : Row)
    → IsKeyed rs
    → find_row row.source_id rs ≡ none
    → IsKeyed (rs ++ row ∷ [])
unfolding find_row
append-IsKeyed [] row keyed gone = (refl, tt)
append-IsKeyed (r ∷ rs) row (fresh, keyed) gone = (
  ground (arith, fresh, gone, find_row-append r.source_id rs row),
  append-IsKeyed rs row keyed (ground (arith, gone)),
)

pub find_row-id :
    (id : Text) (rs : List Row) {row : Row} → find_row id rs ≡ some row → row.source_id ≡ id
unfolding find_row
find_row-id id [] found = cc
find_row-id id (r ∷ rs) {row} found = ground (arith, find_row-id id rs {row = row})

-- The rows that a deletion keeps
module _ (keep : Row → Bool) where
  find_row-retain-none :
      (id : Text) (rs : List Row) → find_row id rs ≡ none → find_row id (retain keep rs) ≡ none
  unfolding find_row
  find_row-retain-none id [] gone = refl
  find_row-retain-none id (r ∷ rs) gone = ground (arith, find_row-retain-none id rs)

  pub retain-IsKeyed : (rs : List Row) → IsKeyed rs → IsKeyed (retain keep rs)
  retain-IsKeyed [] keyed = tt
  retain-IsKeyed (r ∷ rs) (fresh, keyed) = elim (Bool-cases (keep r)) [
    | inl kept ↦
        rw (kept, retain) (find_row-retain-none r.source_id rs fresh, retain-IsKeyed rs keyed)
    | inr dropped ↦ rw (dropped, retain) (retain-IsKeyed rs keyed)
  ]

-- A removed source is gone, and the others are as they were.
pub find_row-delete :
    (id : Text) (n : ℕ) (rs : List Row) {row : Row}
    → IsKeyed rs
    → find_row id rs ≡ some row
    → row.revision ≡ n
    → find_row id (retain (λ r. not (r.source_id =t id && r.revision == n)) rs) ≡ none
unfolding find_row
find_row-delete id n [] keyed found e = cc
find_row-delete id n (r ∷ rs) {row} (fresh, keyed) found e = ground (
  arith,
  fresh,
  find_row-retain-none (λ r. not (r.source_id =t id && r.revision == n)) id rs,
  find_row-delete id n rs {row = row} keyed,
)

pub find_row-delete_ne :
    (id other : Text) (n : ℕ) (rs : List Row)
    → other ≢ id
    → find_row other (retain (λ r. not (r.source_id =t id && r.revision == n)) rs)
      ≡ find_row other rs
unfolding find_row
find_row-delete_ne id other n [] ne = refl
find_row-delete_ne id other n (r ∷ rs) ne = ground (arith, find_row-delete_ne id other n rs)

pub find_checkpoint-put :
    (other : Text) (new : Checkpoint) (cs : List Checkpoint)
    → find_checkpoint other (put_checkpoint new cs)
      ≡ (if new.source_id =t other then some new else find_checkpoint other cs)
unfolding find_checkpoint put_checkpoint
find_checkpoint-put other new [] = refl
find_checkpoint-put other new (c ∷ cs) = ground (arith, find_checkpoint-put other new cs)

pub find_checkpoint-delete :
    (id other : Text) (cs : List Checkpoint)
    → find_checkpoint other (retain (λ c. not (c.source_id =t id)) cs)
      ≡ (if id =t other then none else find_checkpoint other cs)
unfolding find_checkpoint
find_checkpoint-delete id other [] = ground arith
find_checkpoint-delete id other (c ∷ cs) = ground (arith, find_checkpoint-delete id other cs)
