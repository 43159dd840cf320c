-- ===== src/AuditStore/Invariant.antt =====
-- The tables of crates/semantic-engine-audit-store/src/lib.rs over any sequence of operations.
use semantic_engine.Common.{
  ℕ, zero, suc, Text, Bool, true, false, Option, none, some, List, [], ◌∷◌, ◌++◌, not, ◌+◌, ◌≤◌,
  ◌<◌, ◌==◌, ◌=t◌, length, any, find, ◌≡◌, refl, sym, subst, arith, ◌⊎◌, inl, inr, All-map,
  All-append, length-retain-le,
}
use semantic_engine.Common.Results.{Result, ok, err}
use semantic_engine.Common.Machine.{Io}
use semantic_engine.Core.Libraries.{Libraries}
use semantic_engine.Core.Types.{Validation, OperatorResolution}
use semantic_engine.AuditStore.Types.{
  RetentionPolicy, AuditEntry, AuditError, ValidationRow, ResolutionRow, Tables, Externals,
  RoundTrips, map_score,
}
use semantic_engine.AuditStore.Operations.{
  Env, find_message, find_sequence, find_resolution, keep_validations, stored_validation, new_row,
  insert_validation,
}
use semantic_engine.AuditStore.Record.{
  record_row, record_validation, put_resolution, record_resolution, vacuumed, deleted_after,
  delete_round, purge_all,
}
use semantic_engine.AuditStore.Rows.{append-IsAscending, append-IsUnique, find_message-sequence}
use semantic_engine.AuditStore.Retention.{
  IsDecoded, IsLinked, IsSound, keep_validations-IsSound, apply_retention-IsSound,
  length-apply_retention-le,
}
use semantic_engine.AuditStore.Inversion.{
  record_validation-inv, record_row-again, record_row-new, record_resolution-inv, validation-finite,
}

any-append {ℓ} :
    {A : Type ℓ} (p : A → Bool) (xs ys : List A) → any p xs ≡ true → any p (xs ++ ys) ≡ true
any-append p [] ys h = cc
any-append p (x ∷ xs) ys h = ground (arith, any-append p xs ys)

find-any {ℓ} :
    {A : Type ℓ} (p : A → Bool) (xs : List A) {x : A} → find p xs ≡ some x → any p xs ≡ true
find-any p [] h = cc
find-any p (x ∷ xs) {x = y} h = ground (arith, find-any p xs {x = y})

-- Tables that are sound and hold no more validations than the policy allows
abbrev pub IsKept : {F : Type 0} → Externals F → ℕ → Tables → Type 0
IsKept ext max t = IsSound ext t × (length t.validations ≤ max)

pub insert_validation-IsSound :
    {F : Type 0} (ext : Externals F) (laws : RoundTrips ext) (t : Tables)
    (validation : Validation F) (context : Option Text) (json : Text) (now : ℕ)
    → IsSound ext t
    → find_message validation.round_id validation.message_id t.validations ≡ none
    → ext.is_finite (stored_validation validation context).score ≡ true
    → ext.encode_validation (stored_validation validation context) ≡ ok json
    → IsSound ext (insert_validation t (new_row t validation now json))
unfolding insert_validation new_row stored_validation
insert_validation-IsSound ext laws t validation context json now sound fresh finite written =
    let row = new_row t validation now json in
    record {
      ascending = append-IsAscending t.validations row sound.ascending sound.below;
      below =
          All-append (λ (r : ValidationRow). r.sequence < t.next_sequence + 1) t.validations
            (All-map t.validations (λ r less. omega (arith, less)) sound.below) (omega arith);
      unique = append-IsUnique t.validations row sound.unique fresh;
      decoded = All-append (IsDecoded ext) t.validations sound.decoded (
        map_score laws.reread (stored_validation validation context),
        laws.decode_encode_validation (stored_validation validation context) json finite written,
        refl,
        refl,
      );
      linked =
          All-map t.resolutions
            (λ r link.
              any-append (λ (v : ValidationRow). v.sequence == r.validation_sequence) t.validations
                (row ∷ []) link)
            sound.linked;
    }

-- A new resolution, or the one that stood there already
pub put_resolution-inv :
    (env : Env) (t : Tables) (sequence : ℕ) (json : Text) (now : ℕ)
    (existing : Option ResolutionRow) {u : Tables}
    → put_resolution env t sequence json now existing ≡ ok u
    → ((r : ResolutionRow) × (existing ≡ some r) × (r.payload_json ≡ json) × (u ≡ t))
      ⊎ ((existing ≡ none)
          × (u ≡ record t {
            resolutions =
                t.resolutions
                ++ record {
                  validation_sequence = sequence;
                  recorded_at_ms = now;
                  payload_json = json;
                }
                  ∷ [];
          }))
unfolding put_resolution
put_resolution-inv env t sequence json now (some r) {u} e =
    inl (r, refl, ground arith, ground arith)
put_resolution-inv env t sequence json now none {u} e = inr (refl, ground arith)

put_resolution-IsSound :
    {F : Type 0} (ext : Externals F) (env : Env) (t : Tables) (row : ValidationRow) (json : Text)
    (now : ℕ) (existing : Option ResolutionRow) {u : Tables}
    → find_sequence row.sequence t.validations ≡ some row
    → put_resolution env t row.sequence json now existing ≡ ok u
    → IsSound ext t
    → IsSound ext u × (u.validations ≡ t.validations)
unfolding find_sequence
put_resolution-IsSound ext env t row json now existing {u} found put sound =
    elim (put_resolution-inv env t row.sequence json now existing put) [
      | inl (there, is_there, same_json, same_t) ↦ rw same_t (sound, refl)
      | inr (fresh, now_u) ↦ rw now_u (
        record {
          ascending = sound.ascending;
          below = sound.below;
          unique = sound.unique;
          decoded = sound.decoded;
          linked =
              All-append (IsLinked t.validations) t.resolutions sound.linked
                (find-any (λ (v : ValidationRow). v.sequence == row.sequence) t.validations found);
        },
        refl,
      )
    ]

module _ (lib : Libraries) (ext : Externals lib.F64) (laws : RoundTrips ext)
    (retention : RetentionPolicy) where
  record_row-IsKept :
      (env : Env) (t : Tables) (validation : Validation lib.F64) (context : Option Text)
      (json : Text) (now : ℕ) (existing : Option ValidationRow) {r : Tables × AuditEntry lib.F64}
      → find_message validation.round_id validation.message_id t.validations ≡ existing
      → ext.is_finite (stored_validation validation context).score ≡ true
      → ext.encode_validation (stored_validation validation context) ≡ ok json
      → record_row lib ext retention env t validation json now existing ≡ ok r
      → IsKept ext retention.max_validations t
      → IsKept ext retention.max_validations r.0
  record_row-IsKept env t validation context json now (some row) {r} is_found finite written e
        kept =
      rw ((record_row-again lib ext retention env t validation json now row e).1) kept
  record_row-IsKept env t validation context json now none {r} fresh finite written e kept =
      let (retained, loaded) = record_row-new lib ext retention env t validation json now e in
      let inserted : IsSound ext (insert_validation t (new_row t validation now json)) =
        insert_validation-IsSound ext laws t validation context json now kept.0 fresh finite
          written in
      (
        apply_retention-IsSound env.io retention now _ retained ext inserted,
        length-apply_retention-le env.io retention now _ retained inserted.ascending,
      )

  record_resolution-IsKept :
      (env : Env) (t : Tables) (resolution : OperatorResolution) {r : Tables × AuditEntry lib.F64}
      → record_resolution lib ext retention env t resolution ≡ ok r
      → IsKept ext retention.max_validations t
      → IsKept ext retention.max_validations r.0
  record_resolution-IsKept env t resolution {r} e kept =
      let (json, now, row, stored, written, found, is_stored, same, put, loaded) =
        record_resolution-inv lib ext retention env t resolution e in
      let (sound, same_rows) =
        put_resolution-IsSound ext env t row json now (find_resolution row.sequence t.resolutions)
          (find_message-sequence resolution.round_id resolution.message_id t.validations
            kept.0.ascending found)
          put kept.0 in
      (sound, subst (λ rows. length rows ≤ retention.max_validations) (sym same_rows) kept.1)

  keep_validations-IsKept :
      (keep : ValidationRow → Bool) (t : Tables)
      → IsKept ext retention.max_validations t
      → IsKept ext retention.max_validations (keep_validations keep t)
  unfolding keep_validations
  keep_validations-IsKept keep t kept = (
    keep_validations-IsSound ext keep t kept.0,
    omega (arith, kept.1, length-retain-le keep t.validations),
  )

  vacuumed-IsKept :
      (answer : Option Text) (t : Tables) (deleted : ℕ)
      → IsKept ext retention.max_validations t
      → IsKept ext retention.max_validations (vacuumed answer t deleted).0
  unfolding vacuumed
  vacuumed-IsKept answer t zero kept = kept
  vacuumed-IsKept answer t (suc n) kept = kept

  deleted_after-IsKept :
      (ran : Result AuditError (Unit {0})) (t : Tables) (done : Tables × Result AuditError ℕ)
      → IsKept ext retention.max_validations t
      → IsKept ext retention.max_validations done.0
      → IsKept ext retention.max_validations (deleted_after ran t done).0
  unfolding deleted_after
  deleted_after-IsKept (err e) t done kept after = kept
  deleted_after-IsKept (ok ran) t done kept after = after

  -- An operation on the tables; one that fails and leaves them is no step.
  pub data Step : Tables → Tables → Type 0 where
    records :
        (env : Env) {t : Tables} (validation : Validation lib.F64) (context : Option Text)
        {r : Tables × AuditEntry lib.F64}
        → record_validation lib ext retention env t validation context ≡ ok r
        → Step t r.0
    resolves :
        (env : Env) {t : Tables} (resolution : OperatorResolution) {r : Tables × AuditEntry lib.F64}
        → record_resolution lib ext retention env t resolution ≡ ok r
        → Step t r.0
    deletes : (io : Io) {t : Tables} (round_id : Text) → Step t (delete_round io t round_id).0
    purges : (io : Io) {t : Tables} → Step t (purge_all io t).0

  pub data Reach (s : Tables) : Tables → Type 0 where
    here : Reach s s
    next : {t w : Tables} → Reach s t → Step t w → Reach s w

  pub Step-IsKept :
      {t w : Tables}
      → Step t w
      → IsKept ext retention.max_validations t
      → IsKept ext retention.max_validations w
  unfolding delete_round purge_all
  Step-IsKept (records env {t} validation context e) kept =
      let (json, now, written, checked, row) =
        record_validation-inv lib ext retention env t validation context e in
      record_row-IsKept env t validation context json now _ refl
        (validation-finite lib ext validation context checked) written row kept
  Step-IsKept (resolves env {t} resolution e) kept =
      record_resolution-IsKept env t resolution e kept
  Step-IsKept (deletes io {t} round_id) kept = deleted_after-IsKept _ t _ kept (
      vacuumed-IsKept (io 1) _ _
        (keep_validations-IsKept (λ r. not (r.round_id =t round_id)) t kept))
  Step-IsKept (purges io {t}) kept =
      deleted_after-IsKept _ t _ kept
        (vacuumed-IsKept (io 1) _ _ (keep_validations-IsKept (λ r. false) t kept))

  -- Whatever is recorded, resolved, deleted or purged: no more validations are kept than the policy
  -- allows, in the order of their numbers and one at most for each message of a round; each is read
  -- back as a validation of that message, and every resolution belongs to a validation that is still there.
  pub Reach-IsKept :
      {s t : Tables}
      → IsKept ext retention.max_validations s
      → Reach s t
      → IsKept ext retention.max_validations t
  Reach-IsKept kept here = kept
  Reach-IsKept kept (next before step) = Step-IsKept step (Reach-IsKept kept before)
