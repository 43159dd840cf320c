-- ===== src/Source/RoundTrip.antt =====
-- What is read back in crates/semantic-engine-source/src/lib.rs: checkpoints and removed sources.
use semantic_engine.Common.{
  ℕ, Text, Option, none, some, ◌≡◌, ◌≢◌, refl, arith, inl, inr, Option-cases, text_of,
}
use semantic_engine.Common.Results.{ok, err, Result-cases}
use semantic_engine.Source.Types.{SourceRecord, CreateSource, missing, Row, Tables, Externals}
use semantic_engine.Source.Checks.{max_id_chars, validate_identifier, now_ms}
use semantic_engine.Source.Store.{
  Env, find_row, find_checkpoint, read_record, get, put_checkpoint, delete_source, remove,
  insert_row, add, committed, save_checkpoint, load_checkpoint,
}
use semantic_engine.Source.Rows.{
  IsKeyed, find_row-delete, find_row-delete_ne, find_checkpoint-put, find_checkpoint-delete,
}
use semantic_engine.Source.Invariant.{remove-inv, insert_row-inv}

module _ (ext : Externals) where
  -- An answer of `get` does not depend on how the engine came to give it.
  get-inv :
      (answer : Option Text) (t : Tables) (id : Text) {r : SourceRecord}
      → get ext answer t id ≡ ok r
      → (answer ≡ none)
        × (validate_identifier id max_id_chars (text_of "source identifier is invalid") ≡ ok tt)
        × ((row : Row) × (find_row id t.sources ≡ some row) × (read_record ext row ≡ ok r))
  unfolding get
  get-inv (some message) t id {r} e = ground arith
  get-inv none t id {r} e = elim (Option-cases (find_row id t.sources)) [
    | inl gone ↦ ground (arith, gone)
    | inr (row, found) ↦ (refl, ground (arith, found), (row, found, ground (arith, found)))
  ]

  get-of :
      (t : Tables) (id : Text) {row : Row} {r : SourceRecord}
      → validate_identifier id max_id_chars (text_of "source identifier is invalid") ≡ ok tt
      → find_row id t.sources ≡ some row
      → read_record ext row ≡ ok r
      → get ext none t id ≡ ok r
  unfolding get
  get-of t id valid found is_read = rw (valid, get, found) is_read

  -- A saved checkpoint is in the tables under its source, which is there, and nothing else changed.
  save_checkpoint-inv :
      (env : Env) (t : Tables) {w : Tables} (id cursor : Text)
      → save_checkpoint ext env t id cursor ≡ ok w
      → ((now : ℕ) × (r : SourceRecord) × (get ext none t id ≡ ok r)
          × (validate_identifier id max_id_chars (text_of "source identifier is invalid") ≡ ok tt)
          × (w ≡ record t {
            checkpoints =
                put_checkpoint
                  (record { source_id = id; cursor = cursor; updated_at_ms = now })
                  t.checkpoints;
          }))
  unfolding save_checkpoint
  save_checkpoint-inv env t {w} id cursor e = elim (Result-cases (now_ms env.clock)) [
    | inr (bad, is_bad) ↦ ground (arith, is_bad)
    | inl (now, is_now) ↦ elim (Result-cases (get ext (env.io 0) t id)) [
      | inr (bad, is_bad) ↦ ground (arith, is_now, is_bad)
      | inl (r, is_r) ↦
          let (up, valid, (row, found, is_read)) = get-inv (env.io 0) t id is_r in
          (now, r, get-of t id valid found is_read, valid, ground (arith, is_now, is_r))
    ]
  ]

  -- A saved checkpoint is loaded again, whatever stood there before, and the checkpoint of every
  -- other source is loaded as before.
  pub save_checkpoint-load_checkpoint :
      (env later : Env) (t : Tables) (id cursor : Text) {w : Tables}
      → save_checkpoint ext env t id cursor ≡ ok w
      → later.io 0 ≡ none
      → later.io 1 ≡ none
      → ((load_checkpoint ext later w id ≡ ok (some cursor))
          × ((other : Text)
              → other ≢ id
              → load_checkpoint ext later w other ≡ load_checkpoint ext later t other))
  unfolding load_checkpoint
  save_checkpoint-load_checkpoint env later t id cursor {w} e up up' =
      let (now, r, is_r, valid, now_w) = save_checkpoint-inv env t id cursor e in
      rw now_w (
        ground (
          arith,
          is_r,
          valid,
          up,
          up',
          find_checkpoint-put id (record { source_id = id; cursor = cursor; updated_at_ms = now })
              t.checkpoints,
        ),
        λ other ne. ground (
          arith,
          find_checkpoint-put other
              (record { source_id = id; cursor = cursor; updated_at_ms = now }) t.checkpoints,
        ),
      )

  remove-row :
      (env : Env) (t : Tables) (id : Text) (n : ℕ) {w : Tables}
      → remove ext env t id n ≡ ok w
      → (validate_identifier id max_id_chars (text_of "source identifier is invalid") ≡ ok tt)
        × ((row : Row) × (find_row id t.sources ≡ some row) × (row.revision ≡ n))
  unfolding remove read_record
  remove-row env t id n {w} e = elim (Result-cases (get ext (env.io 0) t id)) [
    | inr (bad, is_bad) ↦ ground (arith, is_bad)
    | inl (r, is_r) ↦
        let (up, valid, (row, found, is_read)) = get-inv (env.io 0) t id is_r in
        (valid, (row, found, ground (arith, is_r, is_read)))
  ]

  add-checkpoints :
      (env : Env) (t : Tables) (request : CreateSource)
      → (add ext env t request).0.checkpoints ≡ t.checkpoints
  unfolding add committed
  add-checkpoints env t request = elim (Result-cases (insert_row ext env t request)) [
    | inr (bad, refused) ↦ rw (refused, add) refl
    | inl (u, inserted) ↦
        let (json, now, fresh, room, written, checked, is_u) =
          insert_row-inv ext env t request inserted in
        rw (inserted, add) (rw is_u refl)
  ]

  -- A removed source is missing and has no checkpoint, also after a source was added again under its
  -- identifier; the rows and the checkpoints of the others stay.
  pub remove-forgets :
      (env : Env) (t : Tables) (id : Text) (n : ℕ) {w : Tables}
      → IsKeyed t.sources
      → remove ext env t id n ≡ ok w
      → ((get ext none w id ≡ err missing)
          × (find_checkpoint id w.checkpoints ≡ none)
          × ((again : Env) (request : CreateSource)
              → find_checkpoint id (add ext again w request).0.checkpoints ≡ none)
          × ((other : Text)
              → other ≢ id
              → (find_row other w.sources ≡ find_row other t.sources)
                × (find_checkpoint other w.checkpoints ≡ find_checkpoint other t.checkpoints)))
  unfolding get delete_source
  remove-forgets env t id n {w} keyed e =
      let (valid, (row, found, now)) = remove-row env t id n e in
      let gone : find_checkpoint id (delete_source id n t).checkpoints ≡ none =
        ground (arith, find_checkpoint-delete id id t.checkpoints) in
      rw (remove-inv ext env t id n e) (
        ground (arith, valid, find_row-delete id n t.sources keyed found now),
        gone,
        λ again request. rw (add-checkpoints again (delete_source id n t) request) gone,
        λ other ne. (
          find_row-delete_ne id other n t.sources ne,
          ground (arith, ne, find_checkpoint-delete id other t.checkpoints),
        ),
      )
