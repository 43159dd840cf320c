-- ===== src/AuditStore/Rows.antt =====
-- The rows of crates/semantic-engine-audit-store/src/lib.rs by their sequence numbers and identities,
-- and the newest of them.
use semantic_engine.Common.{
  ℕ, Text, Bool, true, none, some, List, [], ◌∷◌, ◌++◌, ◌&&◌, ◌≤◌, ◌<◌, ltb, ◌=t◌, if◌then◌else◌,
  length, find, retain, trim_front, ◌≡◌, refl, ◌∙◌, arith, inl, inr, Bool-cases, All, All-map,
  All-append, All-retain, All-find,
}
use semantic_engine.AuditStore.Types.{ValidationRow}
use semantic_engine.AuditStore.Operations.{find_message, find_sequence, newer}

-- The rows stand in the order of their sequence numbers.
abbrev pub IsAscending : List ValidationRow → Type 0
IsAscending [] = Unit
IsAscending (r ∷ rs) = All (λ (s : ValidationRow). r.sequence < s.sequence) rs × IsAscending rs

-- No two rows are of the same message of a round.
abbrev pub IsUnique : List ValidationRow → Type 0
IsUnique [] = Unit
IsUnique (r ∷ rs) = (find_message r.round_id r.message_id rs ≡ none) × IsUnique rs

pub retain-IsAscending :
    (keep : ValidationRow → Bool) (rs : List ValidationRow)
    → IsAscending rs
    → IsAscending (retain keep rs)
retain-IsAscending keep [] h = tt
retain-IsAscending keep (r ∷ rs) (above, h) = elim (Bool-cases (keep r)) [
  | inl kept ↦
      rw (kept, retain)
        (
          All-retain (λ (s : ValidationRow). r.sequence < s.sequence) keep rs above,
          retain-IsAscending keep rs h,
        )
  | inr dropped ↦ rw (dropped, retain) (retain-IsAscending keep rs h)
]

pub append-IsAscending :
    (rs : List ValidationRow) (row : ValidationRow)
    → IsAscending rs
    → All (λ (r : ValidationRow). r.sequence < row.sequence) rs
    → IsAscending (rs ++ row ∷ [])
append-IsAscending [] row h below = (tt, tt)
append-IsAscending (r ∷ rs) row (above, h) (less, below) = (
  All-append (λ (s : ValidationRow). r.sequence < s.sequence) rs above less,
  append-IsAscending rs row h below,
)

-- What is found first and kept is still found first.
pub find-retain {ℓ} :
    {A : Type ℓ} (test keep : A → Bool) (xs : List A) {x : A}
    → find test xs ≡ some x
    → keep x ≡ true
    → find test (retain keep xs) ≡ some x
find-retain test keep [] found kept = cc
find-retain test keep (y ∷ xs) {x} found kept = ground (arith, find-retain test keep xs {x = x})

pub find-retain-none {ℓ} :
    {A : Type ℓ} (test keep : A → Bool) (xs : List A)
    → find test xs ≡ none
    → find test (retain keep xs) ≡ none
find-retain-none test keep [] gone = refl
find-retain-none test keep (y ∷ xs) gone = ground (arith, find-retain-none test keep xs)

pub retain-IsUnique :
    (keep : ValidationRow → Bool) (rs : List ValidationRow)
    → IsUnique rs
    → IsUnique (retain keep rs)
unfolding find_message
retain-IsUnique keep [] h = tt
retain-IsUnique keep (r ∷ rs) (fresh, h) = elim (Bool-cases (keep r)) [
  | inl kept ↦
      rw (kept, retain)
        (
          find-retain-none
              (λ (s : ValidationRow). s.round_id =t r.round_id && s.message_id =t r.message_id) keep
              rs fresh,
          retain-IsUnique keep rs h,
        )
  | inr dropped ↦ rw (dropped, retain) (retain-IsUnique keep rs h)
]

pub find_message-append :
    (round_id message_id : Text) (rs : List ValidationRow) (row : ValidationRow)
    → find_message round_id message_id (rs ++ row ∷ [])
      ≡ (elim (find_message round_id message_id rs) [
        | some r ↦ some r
        | none ↦ if row.round_id =t round_id && row.message_id =t message_id then some row else none
      ])
unfolding find_message
find_message-append round_id message_id [] row = refl
find_message-append round_id message_id (r ∷ rs) row =
    ground (arith, find_message-append round_id message_id rs row)

pub append-IsUnique :
    (rs : List ValidationRow) (row : ValidationRow)
    → IsUnique rs
    → find_message row.round_id row.message_id rs ≡ none
    → IsUnique (rs ++ row ∷ [])
unfolding find_message
append-IsUnique [] row h gone = (refl, tt)
append-IsUnique (r ∷ rs) row (fresh, h) gone = (
  ground (arith, fresh, gone, find_message-append r.round_id r.message_id rs row),
  append-IsUnique rs row h (ground (arith, gone)),
)

-- The row of the greatest number is found at the end.
pub find_sequence-append :
    (rs : List ValidationRow) (row : ValidationRow)
    → All (λ (r : ValidationRow). r.sequence < row.sequence) rs
    → find_sequence row.sequence (rs ++ row ∷ []) ≡ some row
unfolding find_sequence
find_sequence-append [] row below = ground arith
find_sequence-append (r ∷ rs) row (less, below) =
    ground (arith, less, find_sequence-append rs row below)

-- A row that is found by its identity is the one of its number.
pub find_message-sequence :
    (round_id message_id : Text) (rs : List ValidationRow) {row : ValidationRow}
    → IsAscending rs
    → find_message round_id message_id rs ≡ some row
    → find_sequence row.sequence rs ≡ some row
unfolding find_message find_sequence
find_message-sequence round_id message_id [] h found = cc
find_message-sequence round_id message_id (r ∷ rs) {row} (above, h) found =
    elim (Bool-cases (r.round_id =t round_id && r.message_id =t message_id)) [
      | inl here ↦ ground (arith, here)
      | inr there ↦
          let less : r.sequence < row.sequence =
            All-find (λ (s : ValidationRow). r.sequence < s.sequence)
              (λ (s : ValidationRow). s.round_id =t round_id && s.message_id =t message_id) rs
              {x = row} above (ground (arith, there)) in
          ground (arith, there, less, find_message-sequence round_id message_id rs {row = row} h)
    ]

newer-all :
    (sequence : ℕ) (rs : List ValidationRow)
    → All (λ (r : ValidationRow). sequence < r.sequence) rs
    → newer sequence rs ≡ length rs
unfolding newer
newer-all sequence [] h = refl
newer-all sequence (r ∷ rs) (above, h) = ground (arith, above, newer-all sequence rs h)

pub newer-append :
    (rs : List ValidationRow) (row : ValidationRow)
    → All (λ (r : ValidationRow). r.sequence < row.sequence) rs
    → newer row.sequence (rs ++ row ∷ []) ≡ 0
unfolding newer
newer-append [] row below = ground arith
newer-append (r ∷ rs) row (less, below) = ground (arith, less, newer-append rs row below)

pub newer-retain-le :
    (keep : ValidationRow → Bool) (sequence : ℕ) (rs : List ValidationRow)
    → newer sequence (retain keep rs) ≤ newer sequence rs
unfolding newer
newer-retain-le keep sequence [] = omega arith
newer-retain-le keep sequence (r ∷ rs) = ground (arith, newer-retain-le keep sequence rs)

retain-ext {ℓ} :
    {A : Type ℓ} (p q : A → Bool) (xs : List A)
    → All (λ x. p x ≡ q x) xs
    → retain p xs ≡ retain q xs
retain-ext p q [] h = refl
retain-ext p q (x ∷ xs) (same, h) = ground (arith, same, retain-ext p q xs h)

trim_front-short {ℓ} : {A : Type ℓ} (n : ℕ) (xs : List A) → length xs ≤ n → trim_front n xs ≡ xs
trim_front-short n [] h = refl
trim_front-short n (x ∷ xs) h = ground arith

-- The rows whose number is among the `n` greatest ones are the last `n`.
pub newest-trim_front :
    (n : ℕ) (rs : List ValidationRow)
    → IsAscending rs
    → retain (λ (r : ValidationRow). ltb (newer r.sequence rs) n) rs ≡ trim_front n rs
unfolding newer
newest-trim_front n [] h = refl
newest-trim_front n (x ∷ xs) (above, h) =
    let rest : retain (λ (r : ValidationRow). ltb (newer r.sequence (x ∷ xs)) n) xs
        ≡ trim_front n xs =
      retain-ext (λ (r : ValidationRow). ltb (newer r.sequence (x ∷ xs)) n)
        (λ (r : ValidationRow). ltb (newer r.sequence xs) n) xs
        (All-map xs (λ s less. ground (arith, less)) above)
      ∙ newest-trim_front n xs h in
    rw rest (
      ground (
        arith,
        newer-all x.sequence (x ∷ xs),
        newer-all x.sequence xs above,
        trim_front-short n xs,
      ))
