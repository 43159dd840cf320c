-- ===== src/AuditStore/Retention.antt =====
-- What crates/semantic-engine-audit-store/src/lib.rs keeps: `apply_retention` and the deletions.
use semantic_engine.Common.{
  ℕ, Bool, true, false, Option, none, some, List, [], ◌∷◌, not, ◌-◌, ◌*◌, ◌≤◌, ◌<◌, ltb, ◌==◌,
  length, any, find, retain, trim_front, ◌≡◌, refl, ap, sym, ◌∙◌, arith, ◌⊎◌, inl, inr, Bool-cases,
  Option-cases, All, All-retain, length-trim_front-le,
}
use semantic_engine.Common.Results.{ok, Result-cases}
use semantic_engine.Common.Machine.{i64_max, Io}
use semantic_engine.AuditStore.Types.{
  RetentionPolicy, ValidationRow, ResolutionRow, Tables, Externals, StoredValidation,
}
use semantic_engine.AuditStore.Checks.{validate_retention, to_i64}
use semantic_engine.AuditStore.Operations.{
  find_resolution, keep_validations, newer, apply_retention,
}
use semantic_engine.AuditStore.Rows.{
  IsAscending, IsUnique, retain-IsAscending, retain-IsUnique, newest-trim_front, newer-retain-le,
  find-retain, find-retain-none,
}

-- The payload is that of a validation of the message of the row.
abbrev pub IsDecoded : {F : Type 0} → Externals F → ValidationRow → Type 0
IsDecoded {F = F} ext row =
    (p : StoredValidation F) × (ext.decode_validation row.payload_json ≡ ok p)
    × (p.round_id ≡ row.round_id)
    × (p.message_id ≡ row.message_id)

abbrev pub IsLinked : List ValidationRow → ResolutionRow → Type 0
IsLinked rows r = any (λ (v : ValidationRow). v.sequence == r.validation_sequence) rows ≡ true

-- The validations stand in the order of their numbers, which the next number exceeds, at most one is
-- of a message, each is read back, and every resolution is of one of them.
pub record IsSound {F : Type 0} (ext : Externals F) (t : Tables) : Type 0 where
  pub ascending : IsAscending t.validations
  pub below : All (λ (r : ValidationRow). r.sequence < t.next_sequence) t.validations
  pub unique : IsUnique t.validations
  pub decoded : All (IsDecoded ext) t.validations
  pub linked : All (IsLinked t.validations) t.resolutions

retain-All {ℓ} : {A : Type ℓ} (p : A → Bool) (xs : List A) → All (λ x. p x ≡ true) (retain p xs)
retain-All p [] = tt
retain-All p (x ∷ xs) = elim (Bool-cases (p x)) [
  | inl passes ↦ rw (passes, retain) (passes, retain-All p xs)
  | inr fails ↦ rw (fails, retain) (retain-All p xs)
]

pub keep_validations-IsSound :
    {F : Type 0} (ext : Externals F) (keep : ValidationRow → Bool) (t : Tables)
    → IsSound ext t
    → IsSound ext (keep_validations keep t)
unfolding keep_validations
keep_validations-IsSound ext keep t sound = record {
  ascending = retain-IsAscending keep t.validations sound.ascending;
  below =
      All-retain (λ (r : ValidationRow). r.sequence < t.next_sequence) keep t.validations
        sound.below;
  unique = retain-IsUnique keep t.validations sound.unique;
  decoded = All-retain (IsDecoded ext) keep t.validations sound.decoded;
  linked =
      retain-All
        (λ (r : ResolutionRow).
          any (λ (v : ValidationRow). v.sequence == r.validation_sequence)
            (retain keep t.validations))
        t.resolutions;
}

-- Whether a row is young enough
abbrev pub is_recent : Option ℕ → ℕ → ValidationRow → Bool
is_recent none now row = true
is_recent (some age) now row = not (ltb row.recorded_at_ms (now - age * 1000))

retain-true {ℓ} : {A : Type ℓ} (xs : List A) → retain (λ x. true) xs ≡ xs
retain-true [] = refl
retain-true (x ∷ xs) = ap (λ t. x ∷ t) (retain-true xs)

-- `apply_retention` by its two deletions, where the first one is of the rows that are too old
pub apply_retention-inv :
    (io : Io) (retention : RetentionPolicy) (now : ℕ) (t : Tables) {u : Tables}
    → apply_retention io retention now t ≡ ok u
    → ((v : Tables) × ((v ≡ t) ⊎ (v ≡ keep_validations (is_recent retention.max_age_seconds now) t))
        × (v.validations ≡ retain (is_recent retention.max_age_seconds now) t.validations)
        × (u
            ≡ keep_validations
                (λ r. ltb (newer r.sequence v.validations) retention.max_validations)
                v))
unfolding apply_retention keep_validations
apply_retention-inv io retention now t {u} e = elim (Option-cases retention.max_age_seconds) [
  | inl ageless ↦
      (t, inl refl, rw ageless (sym (retain-true t.validations)), ground (arith, ageless))
  | inr (age, aged) ↦ (
    keep_validations (is_recent retention.max_age_seconds now) t,
    inr refl,
    refl,
    rw aged (ground (arith, aged)),
  )
]

module _ (io : Io) (retention : RetentionPolicy) (now : ℕ) (t : Tables) {u : Tables}
    (e : apply_retention io retention now t ≡ ok u) where
  pub apply_retention-IsSound : {F : Type 0} (ext : Externals F) → IsSound ext t → IsSound ext u
  apply_retention-IsSound ext sound =
      let (v, from, aged, now_u) = apply_retention-inv io retention now t e in
      let v-IsSound : IsSound ext v = elim from [
        | inl same ↦ rw same sound
        | inr kept ↦
            rw kept (keep_validations-IsSound ext (is_recent retention.max_age_seconds now) t sound)
      ] in
      rw now_u (
        keep_validations-IsSound ext
          (λ r. ltb (newer r.sequence v.validations) retention.max_validations) v v-IsSound)

  -- What is left is recent, and it is the newest of what is recent.
  pub apply_retention-validations :
      IsAscending t.validations
      → u.validations
        ≡ trim_front retention.max_validations
            (retain (is_recent retention.max_age_seconds now) t.validations)
  unfolding keep_validations
  apply_retention-validations h =
      let (v, from, aged, now_u) = apply_retention-inv io retention now t e in
      let h' : IsAscending v.validations =
        rw aged (retain-IsAscending (is_recent retention.max_age_seconds now) t.validations h) in
      ap (λ (w : Tables). w.validations) now_u
      ∙ newest-trim_front retention.max_validations v.validations h'
      ∙ ap (trim_front retention.max_validations) aged

  pub length-apply_retention-le :
      IsAscending t.validations → length u.validations ≤ retention.max_validations
  length-apply_retention-le h = rw (apply_retention-validations h) (
      length-trim_front-le retention.max_validations
        (retain (is_recent retention.max_age_seconds now) t.validations))

is_recent-now :
    (age : Option ℕ) (row : ValidationRow) {now : ℕ}
    → row.recorded_at_ms ≡ now
    → is_recent age now row ≡ true
is_recent-now none row at = refl
is_recent-now (some age) row at = ground arith

-- With a valid policy and the engine up, `apply_retention` does its work.
pub apply_retention-runs :
    (io : Io) (retention : RetentionPolicy) (now : ℕ) (t : Tables)
    → validate_retention retention ≡ ok tt
    → ltb i64_max now ≡ false
    → io 3 ≡ none
    → io 4 ≡ none
    → (u : Tables) × (apply_retention io retention now t ≡ ok u)
unfolding validate_retention apply_retention to_i64
apply_retention-runs io retention now t valid fits up up' =
    elim (Result-cases (apply_retention io retention now t)) [
      | inl (u, runs) ↦ (u, runs)
      | inr (bad, is_bad) ↦ elim (Option-cases retention.max_age_seconds) [
        | inl ageless ↦ ground (arith, ageless, is_bad)
        | inr (age, aged) ↦ ground (arith, aged, is_bad)
      ]
    ]

-- A row of this time that is newer than all others is kept, so it is found by what found it.
pub find-apply_retention :
    (test : ValidationRow → Bool) (io : Io) (retention : RetentionPolicy) (now : ℕ) (t : Tables)
    {u : Tables} {row : ValidationRow}
    → validate_retention retention ≡ ok tt
    → apply_retention io retention now t ≡ ok u
    → find test t.validations ≡ some row
    → row.recorded_at_ms ≡ now
    → newer row.sequence t.validations ≡ 0
    → find test u.validations ≡ some row
unfolding keep_validations validate_retention
find-apply_retention test io retention now t {u} {row} valid e found at newest =
    let (v, from, aged, now_u) = apply_retention-inv io retention now t e in
    let in_v : find test v.validations ≡ some row = rw aged (
      find-retain test (is_recent retention.max_age_seconds now) t.validations found
        (is_recent-now retention.max_age_seconds row at)) in
    let still : newer row.sequence v.validations ≡ 0 = rw aged (
      omega (
        arith,
        newest,
        newer-retain-le (is_recent retention.max_age_seconds now) row.sequence t.validations,
      )) in
    rw now_u (
      find-retain test (λ r. ltb (newer r.sequence v.validations) retention.max_validations)
        v.validations in_v (ground (arith, still)))

-- A number without a resolution gets none.
pub find_resolution-apply_retention :
    (io : Io) (retention : RetentionPolicy) (now : ℕ) (t : Tables) (sequence : ℕ) {u : Tables}
    → apply_retention io retention now t ≡ ok u
    → find_resolution sequence t.resolutions ≡ none
    → find_resolution sequence u.resolutions ≡ none
unfolding keep_validations find_resolution
find_resolution-apply_retention io retention now t sequence {u} e gone =
    let (v, from, aged, now_u) = apply_retention-inv io retention now t e in
    let test : ResolutionRow → Bool = λ r. r.validation_sequence == sequence in
    let in_v : find test v.resolutions ≡ none = elim from [
      | inl same ↦ rw same gone
      | inr kept ↦ rw kept (find-retain-none test _ t.resolutions gone)
    ] in
    rw now_u (find-retain-none test _ v.resolutions in_v)
