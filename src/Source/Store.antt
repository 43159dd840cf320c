-- ===== src/Source/Store.antt =====
-- `SourceStore` of crates/semantic-engine-source/src/lib.rs. Every statement commits by itself, so
-- an operation gives the tables after it, also where a later step fails, and its answer.
use semantic_engine.Common.{
  ℕ, Text, Bool, true, false, Option, none, some, List, [], ◌∷◌, ◌++◌, not, ◌&&◌, ◌||◌, ◌+◌, ltb,
  ◌==◌, ◌=t◌, if◌then◌else◌, length, any, find, retain, take, map, text_of, text_le, byte_len,
  is_control,
}
use semantic_engine.Common.Results.{Result, ok, err, ◌>>=◌, ◌>>◌, guard, ok_or, map_err}
use semantic_engine.Common.Machine.{Io, statement, Clock}
use semantic_engine.Source.Types.{
  SourceDesiredState, paused, same_state, SourceRecord, CreateSource, UpdateSource, SourceError,
  database, invalid, capacity_exceeded, conflict, missing, must_be_paused, Row, Checkpoint, Tables,
  Externals,
}
use semantic_engine.Source.Checks.{
  source_contract_version, max_sources, max_id_chars, max_checkpoint_bytes, validate_identifier,
  validate_display_name, validate_settings, validate_credential_id, validate_create, to_i64, now_ms,
}

abbrev run : Option Text → Result SourceError (Unit {0})
run = statement database

-- What an operation reads from outside: the answers of the engine to its statements, and the clock.
pub record Env : Type 0 where
  pub io : Io
  pub clock : Clock

unfoldable pub find_row : Text → List Row → Option Row
find_row source_id = find (λ (r : Row). r.source_id =t source_id)

-- An `UPDATE` of the row of a source; the primary key makes it one at most.
unfoldable pub update_row : Text → (Row → Row) → List Row → List Row
update_row source_id f = map (λ r. if r.source_id =t source_id then f r else r)

unfoldable pub find_checkpoint : Text → List Checkpoint → Option Checkpoint
find_checkpoint source_id = find (λ (c : Checkpoint). c.source_id =t source_id)

unfoldable pub read_record : Externals → Row → Result SourceError SourceRecord
read_record ext row = do
  settings ← map_err database (ext.decode_settings row.settings_json)
  ok (record {
    definition = record {
      contract_version = source_contract_version;
      source_id = row.source_id;
      adapter = row.adapter;
      display_name = row.display_name;
      settings = settings;
      credential_id = row.credential_id;
    };
    desired_state = row.desired_state;
    revision = row.revision;
    created_at_ms = row.created_at_ms;
    updated_at_ms = row.updated_at_ms;
  })

-- `get`, whose statement gets `answer`
unfoldable pub get : Externals → Option Text → Tables → Text → Result SourceError SourceRecord
unfolding validate_identifier find_row read_record
get ext answer t source_id = do
  validate_identifier source_id max_id_chars (text_of "source identifier is invalid")
  run answer
  row ← ok_or (find_row source_id t.sources) missing
  read_record ext row

-- A statement that fails leaves the tables; what follows a statement that ran sees its effect.
unfoldable pub committed {ℓ} :
    {B : Type ℓ}
    → Tables
    → Result SourceError Tables
    → (Tables → Result SourceError B)
    → Tables × Result SourceError B
committed t (err e) rest = (t, err e)
committed t (ok u) rest = (u, rest u)

-- The row that `add` inserts
unfoldable pub new_row : CreateSource → Text → ℕ → Row
new_row request settings_json now = record {
  source_id = request.source_id;
  adapter = request.adapter;
  display_name = request.display_name;
  settings_json = settings_json;
  credential_id = request.credential_id;
  desired_state = paused;
  revision = 1;
  created_at_ms = now;
  updated_at_ms = now;
}

-- `expect_changed`: the change of at most one row ran, or the source is looked for.
unfoldable pub expect_changed : Option Text → Text → Bool → Tables → Result SourceError (Unit {0})
unfolding find_row
expect_changed answer source_id true t = ok tt
expect_changed answer source_id false t = do
  run answer
  existing ← ok_or (find_row source_id t.sources) missing
  err conflict

unfoldable pub no_settings : SourceError
no_settings = invalid (text_of "settings cannot be serialized")

-- Whether the row of the source has the revision
unfoldable pub at_revision : Text → ℕ → List Row → Bool
at_revision source_id revision =
    any (λ (r : Row). r.source_id =t source_id && r.revision == revision)

-- The `SET` of `update`
unfoldable pub revise : UpdateSource → Text → ℕ → Row → Row
revise request settings_json now row = record row {
  display_name = request.display_name;
  settings_json = settings_json;
  credential_id = request.credential_id;
  revision = row.revision + 1;
  updated_at_ms = now;
}

-- The `SET` of `set_desired_state`
unfoldable pub switch : SourceDesiredState → ℕ → Row → Row
switch state now row = record row {
  desired_state = state;
  revision = row.revision + 1;
  updated_at_ms = now;
}

-- Whether the `UPDATE` of `set_desired_state` finds its row
unfoldable pub to_switch : Text → ℕ → SourceDesiredState → List Row → Bool
to_switch source_id revision state = any (λ (r : Row).
    r.source_id =t source_id && r.revision == revision && not (same_state r.desired_state state))

-- The `DELETE` of `remove`; the checkpoint of the source goes with its row.
unfoldable pub delete_source : Text → ℕ → Tables → Tables
delete_source source_id revision t = record {
  sources = retain (λ r. not (r.source_id =t source_id && r.revision == revision)) t.sources;
  checkpoints = retain (λ c. not (c.source_id =t source_id)) t.checkpoints;
}

-- The upsert of `save_checkpoint`
unfoldable pub put_checkpoint : Checkpoint → List Checkpoint → List Checkpoint
put_checkpoint new [] = new ∷ []
put_checkpoint new (c ∷ cs) =
    let rest = put_checkpoint new cs in if c.source_id =t new.source_id then new ∷ cs else c ∷ rest

-- The order of `list`, where texts compare as their UTF-8 bytes do
unfoldable pub row_le : Row → Row → Bool
row_le a b =
    ltb a.created_at_ms b.created_at_ms
    || (a.created_at_ms == b.created_at_ms && text_le a.source_id b.source_id)

unfoldable pub insert_sorted : Row → List Row → List Row
unfolding row_le
insert_sorted r [] = r ∷ []
insert_sorted r (x ∷ xs) =
    let rest = insert_sorted r xs in if row_le r x then r ∷ x ∷ xs else x ∷ rest

unfoldable pub sorted : List Row → List Row
unfolding insert_sorted
sorted [] = []
sorted (r ∷ rs) = insert_sorted r (sorted rs)

unfoldable pub read_records : Externals → List Row → Result SourceError (List SourceRecord)
unfolding read_record
read_records ext [] = ok []
read_records ext (r ∷ rs) = do
  record_of_r ← read_record ext r
  others ← read_records ext rs
  ok (record_of_r ∷ others)

unfoldable pub list : Externals → Option Text → Tables → Result SourceError (List SourceRecord)
unfolding sorted read_records
list ext answer t = do run answer; read_records ext (take max_sources (sorted t.sources))

module _ (ext : Externals) (env : Env) where
  open env use {io, clock}

  unfoldable pub insert_row : Tables → CreateSource → Result SourceError Tables
  unfolding validate_create now_ms to_i64 find_row new_row no_settings
  insert_row t request = do
    validate_create ext request
    run (io 0)
    guard (ltb (length t.sources) max_sources) capacity_exceeded
    now ← now_ms clock
    settings_json ← ok_or (ext.encode_settings request.settings) no_settings
    stamp ← to_i64 now
    run (io 1)
    elim (find_row request.source_id t.sources) [
      | some taken ↦ err conflict
      | none ↦ ok (record t { sources = t.sources ++ new_row request settings_json now ∷ [] })
    ]

  unfoldable pub add : Tables → CreateSource → Tables × Result SourceError SourceRecord
  unfolding committed insert_row get
  add t request = committed t (insert_row t request) (λ u. get ext (io 2) u request.source_id)

  unfoldable pub update_source : Tables → Text → UpdateSource → Result SourceError Tables
  unfolding validate_identifier validate_display_name validate_settings validate_credential_id
      now_ms to_i64 at_revision expect_changed update_row revise no_settings
  update_source t source_id request = do
    validate_identifier source_id max_id_chars (text_of "source identifier is invalid")
    validate_display_name ext request.display_name
    validate_settings request.settings
    validate_credential_id request.credential_id
    guard (not (request.expected_revision == 0))
        (invalid (text_of "expected revision must be positive"))
    settings_json ← ok_or (ext.encode_settings request.settings) no_settings
    now ← now_ms clock
    stamp ← to_i64 now
    expected ← to_i64 request.expected_revision
    run (io 0)
    expect_changed (io 1) source_id (at_revision source_id request.expected_revision t.sources) t
    ok (record t { sources = update_row source_id (revise request settings_json now) t.sources })

  unfoldable pub update : Tables → Text → UpdateSource → Tables × Result SourceError SourceRecord
  unfolding committed update_source get
  update t source_id request =
      committed t (update_source t source_id request) (λ u. get ext (io 2) u source_id)

  -- What `set_desired_state` does where its row is found
  unfoldable pub switch_source :
      Tables → Text → ℕ → SourceDesiredState → Result SourceError (Tables × Bool)
  unfolding validate_identifier now_ms to_i64 to_switch update_row switch
  switch_source t source_id expected_revision state = do
    validate_identifier source_id max_id_chars (text_of "source identifier is invalid")
    guard (not (expected_revision == 0)) (invalid (text_of "expected revision must be positive"))
    now ← now_ms clock
    stamp ← to_i64 now
    expected ← to_i64 expected_revision
    run (io 0)
    let changed = to_switch source_id expected_revision state t.sources
    ok (
      (if changed
          then record t { sources = update_row source_id (switch state now) t.sources }
          else t),
      changed,
    )

  -- The answer of `set_desired_state`
  unfoldable pub switched : Text → ℕ → Tables → Bool → Result SourceError SourceRecord
  unfolding get
  switched source_id expected_revision t true = get ext (io 1) t source_id
  switched source_id expected_revision t false = do
    current ← get ext (io 1) t source_id
    guard (current.revision == expected_revision) conflict
    ok current

  unfoldable pub set_desired_state :
      Tables → Text → ℕ → SourceDesiredState → Tables × Result SourceError SourceRecord
  unfolding switch_source switched
  set_desired_state t source_id expected_revision state =
      elim (switch_source t source_id expected_revision state) [
        | err e ↦ (t, err e)
        | ok (u, changed) ↦ (u, switched source_id expected_revision u changed)
      ]

  unfoldable pub remove : Tables → Text → ℕ → Result SourceError Tables
  unfolding get to_i64 at_revision expect_changed delete_source
  remove t source_id expected_revision = do
    current ← get ext (io 0) t source_id
    guard (current.revision == expected_revision) conflict
    guard (same_state current.desired_state paused) must_be_paused
    expected ← to_i64 expected_revision
    run (io 1)
    expect_changed (io 2) source_id (at_revision source_id expected_revision t.sources) t
    ok (delete_source source_id expected_revision t)

  unfoldable pub save_checkpoint : Tables → Text → Text → Result SourceError Tables
  unfolding validate_identifier get now_ms to_i64 put_checkpoint
  save_checkpoint t source_id cursor = do
    validate_identifier source_id max_id_chars (text_of "source identifier is invalid")
    guard (not (ltb max_checkpoint_bytes (byte_len cursor) || any is_control cursor))
        (invalid (text_of "source checkpoint is invalid"))
    current ← get ext (io 0) t source_id
    now ← now_ms clock
    stamp ← to_i64 now
    run (io 1)
    ok (record t {
      checkpoints =
          put_checkpoint (record { source_id = source_id; cursor = cursor; updated_at_ms = now })
            t.checkpoints;
    })

  unfoldable pub load_checkpoint : Tables → Text → Result SourceError (Option Text)
  unfolding validate_identifier get find_checkpoint
  load_checkpoint t source_id = do
    validate_identifier source_id max_id_chars (text_of "source identifier is invalid")
    current ← get ext (io 0) t source_id
    run (io 1)
    ok (elim (find_checkpoint source_id t.checkpoints) [ none ↦ none | some c ↦ some c.cursor ])
