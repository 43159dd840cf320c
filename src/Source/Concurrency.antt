-- ===== src/Source/Concurrency.antt =====
-- Revisions in crates/semantic-engine-source/src/lib.rs: a change names the revision it was made
-- for, and only one change of each revision takes effect.
use semantic_engine.Common.{
  ℕ, Text, true, false, Option, none, some, ◌+◌, ◌==◌, ltb, ◌<◌, if◌then◌else◌, ◌≡◌, ◌≢◌, refl,
  arith, inl, inr, Option-cases, text_of,
}
use semantic_engine.Common.Results.{Result, ok, err, Result-cases}
use semantic_engine.Common.Machine.{i64_max, millis}
use semantic_engine.Source.Types.{
  SourceDesiredState, SourceRecord, UpdateSource, SourceError, conflict, missing, Row, Tables,
  Externals, RoundTrips,
}
use semantic_engine.Source.Checks.{
  source_contract_version, max_id_chars, validate_identifier, validate_display_name,
  validate_settings, validate_credential_id, now_ms, to_i64,
}
use semantic_engine.Source.Store.{
  Env, find_row, update_row, read_record, get, committed, expect_changed, at_revision, revise,
  update_source, update, switch_source, switched, set_desired_state, remove,
}
use semantic_engine.Source.Rows.{
  IsKeyed, at_revision-none, at_revision-row, to_switch-row, find_row-update_self,
  update_row-IsKeyed,
}

-- The request passes the checks of `update` for the source, and its settings are written as `json`.
pub record IsAccepted (ext : Externals) (id : Text) (request : UpdateSource) (json : Text)
    : Type 0 where
  pub identifier :
      validate_identifier id max_id_chars (text_of "source identifier is invalid") ≡ ok tt
  pub display_name : validate_display_name ext request.display_name ≡ ok tt
  pub settings : validate_settings request.settings ≡ ok tt
  pub credential_id : validate_credential_id request.credential_id ≡ ok tt
  pub positive : (request.expected_revision == 0) ≡ false
  pub expected : ltb i64_max request.expected_revision ≡ false
  pub encodes : ext.encode_settings request.settings ≡ some json

-- The engine answers, and the clock gives a time that the tables can hold.
pub record IsUp (env : Env) (now : ℕ) : Type 0 where
  pub answers : (k : ℕ) → env.io k ≡ none
  pub clock : env.clock ≡ millis now
  pub holds_now : ltb i64_max now ≡ false

-- The record of a row that an update has revised
abbrev pub revised : UpdateSource → ℕ → Row → SourceRecord
revised request now row = record {
  definition = record {
    contract_version = source_contract_version;
    source_id = row.source_id;
    adapter = row.adapter;
    display_name = request.display_name;
    settings = request.settings;
    credential_id = request.credential_id;
  };
  desired_state = row.desired_state;
  revision = row.revision + 1;
  created_at_ms = row.created_at_ms;
  updated_at_ms = now;
}

-- What `update` is to do with the row of its source
abbrev pub update_outcome :
    UpdateSource → Text → Text → ℕ → Tables → Option Row → Tables × Result SourceError SourceRecord
update_outcome request id json now t none = (t, err missing)
update_outcome request id json now t (some row) =
    if row.revision == request.expected_revision
    then (
      record t { sources = update_row id (revise request json now) t.sources },
      ok (revised request now row),
    )
    else (t, err conflict)

module _ (ext : Externals) (laws : RoundTrips ext) where
  -- `update` of an accepted request, with the engine up: a source that is not there is missing, a
  -- source at another revision is a conflict and stays as it is, and otherwise the source takes the
  -- fields of the request, the next revision and the time, and the answer is what it then holds.
  pub update-outcome :
      (env : Env) (t : Tables) (id : Text) (request : UpdateSource) (json : Text) (now : ℕ)
      → IsKeyed t.sources
      → IsAccepted ext id request json
      → IsUp env now
      → update ext env t id request ≡ update_outcome request id json now t (find_row id t.sources)
  unfolding update update_source committed now_ms to_i64 expect_changed get read_record revise
  update-outcome env t id request json now keyed a up =
      elim (Option-cases (find_row id t.sources)) [
        | inl gone ↦ rw gone (
            ground (
              arith,
              a,
              up,
              up.answers 0,
              up.answers 1,
              at_revision-none id request.expected_revision t.sources gone,
            ))
        | inr (row, found) ↦
            let still : find_row id (update_row id (revise request json now) t.sources)
                ≡ some (revise request json now row) =
              find_row-update_self id (revise request json now) (λ r. refl) t.sources found in
            rw found (
              ground (
                arith,
                a,
                up,
                up.answers 0,
                up.answers 1,
                up.answers 2,
                at_revision-row id request.expected_revision t.sources keyed found,
                still,
                laws.decode_encode request.settings json,
              ))
      ]

-- An answer that is a refusal, and the tables are as they were
abbrev pub IsRefused {ℓ} : {B : Type ℓ} → Tables → Tables × Result SourceError B → Type ℓ
IsRefused {B = B} t answer = (answer.0 ≡ t) × ((b : B) → answer.1 ≢ ok b)

module _ (ext : Externals) where
  -- A revision that is not the current one of the source
  module _ (env : Env) (t : Tables) (id : Text) {row : Row} (keyed : IsKeyed t.sources)
      (found : find_row id t.sources ≡ some row) where
    update-stale :
        (request : UpdateSource)
        → (row.revision == request.expected_revision) ≡ false
        → IsRefused t (update ext env t id request)
    unfolding update update_source committed expect_changed
    update-stale request stale =
        let never = at_revision-row id request.expected_revision t.sources keyed found in
        (ground (arith, never, stale), λ b. ground (arith, never, stale))

    set_desired_state-stale :
        (n : ℕ) (state : SourceDesiredState)
        → (row.revision == n) ≡ false
        → IsRefused t (set_desired_state ext env t id n state)
    unfolding set_desired_state switch_source switched get read_record
    set_desired_state-stale n state stale =
        let never = to_switch-row id n state t.sources keyed found in
        (ground (arith, never, stale, found), λ b. ground (arith, never, stale, found))

    remove-stale : (n : ℕ) {w : Tables} → (row.revision == n) ≡ false → remove ext env t id n ≢ ok w
    unfolding remove get read_record
    remove-stale n {w} stale = ground (arith, stale, found)

  -- What an update did where it changed the tables
  pub update_source-inv :
      (env : Env) (t : Tables) (id : Text) (request : UpdateSource) {u : Tables}
      → update_source ext env t id request ≡ ok u
      → ((json : Text) × (now : ℕ) × (at_revision id request.expected_revision t.sources ≡ true)
          × (ext.encode_settings request.settings ≡ some json)
          × (validate_settings request.settings ≡ ok tt)
          × (u ≡ record t { sources = update_row id (revise request json now) t.sources }))
  unfolding update_source expect_changed
  update_source-inv env t id request {u} e =
      elim (Option-cases (ext.encode_settings request.settings)) [
        | inl none_written ↦ ground (arith, none_written)
        | inr (json, written) ↦ elim (Result-cases (now_ms env.clock)) [
          | inr (bad, is_bad) ↦ ground (arith, written, is_bad)
          | inl (now, is_now) ↦ (
            json,
            now,
            ground (arith, written, is_now),
            written,
            ground (arith, written, is_now),
            ground (arith, written, is_now),
          )
        ]
      ]

  update_source-revision :
      (env : Env) (t : Tables) (id : Text) (request : UpdateSource) {u : Tables}
      → IsKeyed t.sources
      → update_source ext env t id request ≡ ok u
      → (IsKeyed u.sources
          × ((row : Row) × (find_row id u.sources ≡ some row)
              × (row.revision ≡ request.expected_revision + 1)))
  unfolding revise
  update_source-revision env t id request {u} keyed e =
      let (json, now, at, written, checked, now_u) = update_source-inv env t id request e in
      elim (Option-cases (find_row id t.sources)) [
        | inl gone ↦ cc (at, at_revision-none id request.expected_revision t.sources gone)
        | inr (row, found) ↦ rw now_u (
          update_row-IsKeyed id (revise request json now) (λ r. refl) t.sources keyed,
          (
            revise request json now row,
            find_row-update_self id (revise request json now) (λ r. refl) t.sources found,
            ground (arith, at, at_revision-row id request.expected_revision t.sources keyed found),
          ),
        )
      ]

  -- Only one update of a revision takes effect: an update that names a revision of a source and changes
  -- the tables takes the source to the next revision, and in any tables where the source is past the
  -- revision that was named, an update, a change of state and a removal of the source which name it are
  -- refused and leave the tables as they are.
  pub revision_once :
      (env later : Env) (t v : Tables) (id : Text) (request : UpdateSource) {u : Tables} {row : Row}
      → IsKeyed t.sources
      → update_source ext env t id request ≡ ok u
      → IsKeyed v.sources
      → find_row id v.sources ≡ some row
      → request.expected_revision < row.revision
      → (((next : Row) × (find_row id u.sources ≡ some next)
            × (next.revision ≡ request.expected_revision + 1))
          × ((again : UpdateSource)
              → again.expected_revision ≡ request.expected_revision
              → IsRefused v (update ext later v id again))
          × ((state : SourceDesiredState)
              → IsRefused v (set_desired_state ext later v id request.expected_revision state))
          × ((w : Tables) → remove ext later v id request.expected_revision ≢ ok w))
  revision_once env later t v id request {u} {row} keyed e still found past = (
    (update_source-revision env t id request keyed e).1,
    (λ again same. update-stale later v id still found again (ground (arith, past, same))),
    (λ state.
        set_desired_state-stale later v id still found request.expected_revision state
          (ground (arith, past))),
    (λ w. remove-stale later v id still found request.expected_revision (ground (arith, past))),
  )
