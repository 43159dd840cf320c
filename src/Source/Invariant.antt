-- ===== src/Source/Invariant.antt =====
-- The tables of crates/semantic-engine-source/src/lib.rs over any sequence of operations.
use semantic_engine.Common.{
  ℕ, suc, Text, Bool, true, none, some, List, [], ◌∷◌, ◌++◌, not, ◌&&◌, ◌≤◌, ◌=t◌, ◌==◌, ltb,
  length, ◌≡◌, refl, ap, subst, arith, inl, inr, Option-cases, Bool-cases, length-append,
  length-retain-le, All, All-append, All-retain,
}
use semantic_engine.Common.Results.{ok, Result-cases}
use semantic_engine.Source.Types.{
  Settings, SourceDesiredState, CreateSource, UpdateSource, Row, Tables, Externals,
}
use semantic_engine.Source.Checks.{max_sources, validate_settings, validate_create, now_ms}
use semantic_engine.Source.Store.{
  Env, find_row, update_row, new_row, revise, switch, delete_source, insert_row, add, update_source,
  update, switch_source, set_desired_state, remove, save_checkpoint, committed, to_switch,
  expect_changed,
}
use semantic_engine.Source.Rows.{IsKeyed, update_row-IsKeyed, append-IsKeyed, retain-IsKeyed}
use semantic_engine.Source.Concurrency.{update_source-inv}

-- What the column of settings holds was checked before it was written.
abbrev pub IsCheckedRow : Externals → Row → Type 0
IsCheckedRow ext row =
    (settings : Settings) × (ext.encode_settings settings ≡ some row.settings_json)
    × (validate_settings settings ≡ ok tt)

-- The rows have different keys and are 64 at most, a revision is 1 at least, and the settings were
-- checked, so none of them has a key that names a secret.
pub record IsSound (ext : Externals) (t : Tables) : Type 0 where
  pub keyed : IsKeyed t.sources
  pub bounded : length t.sources ≤ max_sources
  pub revised : All (λ (r : Row). 1 ≤ r.revision) t.sources
  pub checked : All (IsCheckedRow ext) t.sources

-- An operation on the tables, also one that fails
pub data Step (ext : Externals) : Tables → Tables → Type 0 where
  adds : (env : Env) (t : Tables) (request : CreateSource) → Step ext t (add ext env t request).0
  updates :
      (env : Env) (t : Tables) (id : Text) (request : UpdateSource)
      → Step ext t (update ext env t id request).0
  switches :
      (env : Env) (t : Tables) (id : Text) (revision : ℕ) (state : SourceDesiredState)
      → Step ext t (set_desired_state ext env t id revision state).0
  removes :
      (env : Env) {t w : Tables} (id : Text) (revision : ℕ)
      → remove ext env t id revision ≡ ok w
      → Step ext t w
  saves :
      (env : Env) {t w : Tables} (id cursor : Text)
      → save_checkpoint ext env t id cursor ≡ ok w
      → Step ext t w

pub data Reach (ext : Externals) (s : Tables) : Tables → Type 0 where
  here : Reach ext s s
  next : {t w : Tables} → Reach ext s t → Step ext t w → Reach ext s w

append-bounded :
    (rs : List Row) (row : Row)
    → ltb (length rs) max_sources ≡ true
    → length (rs ++ row ∷ []) ≤ max_sources
append-bounded rs row room = ground (arith, length-append rs (row ∷ []))

module _ (id : Text) (f : Row → Row) where
  length-update_row : (rs : List Row) → length (update_row id f rs) ≡ length rs
  unfolding update_row
  length-update_row [] = refl
  length-update_row (r ∷ rs) = ap suc (length-update_row rs)

  update_row-All {κ} :
      (P : Row → Type κ) (kept : (r : Row) → P r → P (f r)) (rs : List Row)
      → All P rs
      → All P (update_row id f rs)
  unfolding update_row
  update_row-All P kept [] h = tt
  update_row-All P kept (r ∷ rs) (p, h) = elim (Bool-cases (r.source_id =t id)) [
    | inl it ↦ rw (it, update_row) (kept r p, update_row-All P kept rs h)
    | inr other ↦ rw (other, update_row) (p, update_row-All P kept rs h)
  ]

module _ (ext : Externals) where
  pub insert_row-inv :
      (env : Env) (t : Tables) (request : CreateSource) {u : Tables}
      → insert_row ext env t request ≡ ok u
      → ((json : Text) × (now : ℕ) × (find_row request.source_id t.sources ≡ none)
          × (ltb (length t.sources) max_sources ≡ true)
          × (ext.encode_settings request.settings ≡ some json)
          × (validate_settings request.settings ≡ ok tt)
          × (u ≡ record t { sources = t.sources ++ new_row request json now ∷ [] }))
  unfolding insert_row validate_create
  insert_row-inv env t request {u} e = elim (Option-cases (ext.encode_settings request.settings)) [
    | inl none_written ↦ ground (arith, none_written)
    | inr (json, written) ↦ elim (Result-cases (now_ms env.clock)) [
      | inr (bad, is_bad) ↦ ground (arith, written, is_bad)
      | inl (now, is_now) ↦ (
        json,
        now,
        ground (arith, written, is_now),
        ground (arith, written, is_now),
        written,
        ground (arith, written, is_now),
        ground (arith, written, is_now),
      )
    ]
  ]

  update_row-IsSound :
      (t : Tables) (id : Text) (f : Row → Row)
      → ((r : Row) → (f r).source_id ≡ r.source_id)
      → ((r : Row) → 1 ≤ (f r).revision)
      → ((r : Row) → IsCheckedRow ext r → IsCheckedRow ext (f r))
      → IsSound ext t
      → IsSound ext (record t { sources = update_row id f t.sources })
  update_row-IsSound t id f same positive checks sound = record {
    keyed = update_row-IsKeyed id f same t.sources sound.keyed;
    bounded = omega (arith, sound.bounded, length-update_row id f t.sources);
    revised =
        update_row-All id f (λ (r : Row). 1 ≤ r.revision) (λ r p. positive r) t.sources
          sound.revised;
    checked = update_row-All id f (IsCheckedRow ext) checks t.sources sound.checked;
  }

  switch_source-IsSound :
      (env : Env) (t : Tables) (id : Text) (revision : ℕ) (state : SourceDesiredState)
      {u : Tables × Bool}
      → IsSound ext t
      → switch_source ext env t id revision state ≡ ok u
      → IsSound ext u.0
  unfolding switch_source switch
  switch_source-IsSound env t id revision state {u} sound e =
      elim (Result-cases (now_ms env.clock)) [
        | inr (bad, is_bad) ↦ ground (arith, is_bad)
        | inl (now, is_now) ↦ elim (Bool-cases (to_switch id revision state t.sources)) [
          | inl found ↦
              subst (λ v. IsSound ext v) (ground (arith, is_now, found))
                (update_row-IsSound t id (switch state now) (λ r. refl) (λ r. omega arith)
                  (λ r h. h) sound)
          | inr stays ↦ subst (λ v. IsSound ext v) (ground (arith, is_now, stays)) sound
        ]
      ]

  pub remove-inv :
      (env : Env) (t : Tables) {w : Tables} (id : Text) (revision : ℕ)
      → remove ext env t id revision ≡ ok w
      → w ≡ delete_source id revision t
  unfolding remove expect_changed
  remove-inv env t {w} id revision e = ground arith

  delete_source-IsSound :
      (t : Tables) (id : Text) (revision : ℕ)
      → IsSound ext t
      → IsSound ext (delete_source id revision t)
  unfolding delete_source
  delete_source-IsSound t id revision sound =
      let keep : Row → Bool = λ r. not (r.source_id =t id && r.revision == revision) in
      record {
        keyed = retain-IsKeyed keep t.sources sound.keyed;
        bounded = omega (arith, sound.bounded, length-retain-le keep t.sources);
        revised = All-retain (λ (r : Row). 1 ≤ r.revision) keep t.sources sound.revised;
        checked = All-retain (IsCheckedRow ext) keep t.sources sound.checked;
      }

  save_checkpoint-sources :
      (env : Env) (t : Tables) {w : Tables} (id cursor : Text)
      → save_checkpoint ext env t id cursor ≡ ok w
      → w.sources ≡ t.sources
  unfolding save_checkpoint
  save_checkpoint-sources env t {w} id cursor e = elim (Result-cases (now_ms env.clock)) [
    | inr (bad, is_bad) ↦ ground (arith, is_bad)
    | inl (now, is_now) ↦ ground (arith, is_now)
  ]

  Step-IsSound : {t w : Tables} → Step ext t w → IsSound ext t → IsSound ext w
  unfolding add update set_desired_state committed delete_source revise
  Step-IsSound (adds env t request) sound = elim (Result-cases (insert_row ext env t request)) [
    | inr (refusal, refused) ↦ rw refused sound
    | inl (u, added) ↦
        let (json, now, fresh, room, written, checked, now_u) =
          insert_row-inv env t request added in
        rw (added, now_u)
          (record {
            keyed = append-IsKeyed t.sources (new_row request json now) sound.keyed fresh;
            bounded = append-bounded t.sources (new_row request json now) room;
            revised =
                All-append (λ (r : Row). 1 ≤ r.revision) t.sources sound.revised (omega arith);
            checked =
                All-append (IsCheckedRow ext) t.sources sound.checked
                  (request.settings, written, checked);
          })
  ]
  Step-IsSound (updates env t id request) sound =
      elim (Result-cases (update_source ext env t id request)) [
        | inr (refusal, refused) ↦ rw refused sound
        | inl (u, revises) ↦
            let (json, now, at, written, checked, now_u) =
              update_source-inv ext env t id request revises in
            rw (revises, now_u)
              (update_row-IsSound t id (revise request json now) (λ r. refl) (λ r. omega arith)
                (λ r h. (request.settings, written, checked)) sound)
      ]
  Step-IsSound (switches env t id revision state) sound =
      elim (Result-cases (switch_source ext env t id revision state)) [
        | inr (refusal, refused) ↦ rw (refused, set_desired_state) sound
        | inl (u, found) ↦
            rw (found, set_desired_state)
              (switch_source-IsSound env t id revision state sound found)
      ]
  Step-IsSound (removes env {t} id revision done) sound =
      rw (remove-inv env t id revision done) (delete_source-IsSound t id revision sound)
  Step-IsSound (saves env {t} id cursor done) sound =
      let same = save_checkpoint-sources env t id cursor done in
      record {
        keyed = rw same sound.keyed;
        bounded = rw same sound.bounded;
        revised = rw same sound.revised;
        checked = rw same sound.checked;
      }

  -- Whatever is done to the tables, and whatever fails: the rows keep different keys, they stay
  -- within 64 sources, a revision is never 0, and every stored settings text is that of settings
  -- that passed the checks.
  pub Reach-IsSound : {s t : Tables} → IsSound ext s → Reach ext s t → IsSound ext t
  Reach-IsSound sound here = sound
  Reach-IsSound sound (next before step) = Step-IsSound step (Reach-IsSound sound before)
