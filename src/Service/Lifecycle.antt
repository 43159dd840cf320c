-- ===== src/Service/Lifecycle.antt =====
-- `end_session` of crates/semantic-engine-service/src/lib.rs, and what an ended session refuses.
use semantic_engine.Common.{
  ℕ, Text, true, some, List, [], ◌∷◌, ◌≡◌, refl, sym, subst, arith, Bool-cases, Option-cases, inl,
  inr,
}
use semantic_engine.Common.Results.{Result, ok, err, Result-cases}
use semantic_engine.Core.Libraries.{Libraries}
use semantic_engine.Core.Types.{Submission, OperatorResolutionRequest}
use semantic_engine.Service.Types.{
  ServiceError, session_ended, SessionSnapshot, SessionEventKind, SessionEvent, SessionRecord,
  SemanticEngineService,
}
use semantic_engine.Service.Config.{now_or}
use semantic_engine.Service.Externals.{Externals, Audit, Env}
use semantic_engine.Service.Records.{
  valid_session_identifier, is_over, find_record, update_record, new_session_event,
  session_snapshot,
}
use semantic_engine.Service.Sessions.{known, live, or_unchanged}
use semantic_engine.Service.Submissions.{
  finish, end_active, end_found, end_session, submit, session_resolution, resolve_session,
}

module _ {F : Type 0} where
  pub find_record-update :
      (id : Text) (f : SessionRecord F → SessionRecord F)
      → ((r : SessionRecord F) → (f r).session_id ≡ r.session_id)
      → (rs : List (SessionRecord F)) {r : SessionRecord F} → find_record id rs ≡ some r
      → find_record id (update_record id f rs) ≡ some (f r)
  unfolding find_record update_record
  find_record-update id f same [] e = cc
  find_record-update id f same (x ∷ rs) {r} e =
      ground (arith, same x, find_record-update id f same rs {r = r})

  find_record-id :
      (id : Text) (rs : List (SessionRecord F)) {r : SessionRecord F}
      → find_record id rs ≡ some r
      → r.session_id ≡ id
  unfolding find_record
  find_record-id id [] e = cc
  find_record-id id (x ∷ rs) {r} e = ground (arith, find_record-id id rs {r = r})

  finish-id :
      (max_events : ℕ) (event : SessionEvent F) (now : ℕ) (r : SessionRecord F)
      → (finish max_events event now r).session_id ≡ r.session_id
  unfolding finish
  finish-id max_events event now r = refl

  finish-is_over :
      (max_events : ℕ) (event : SessionEvent F) (now : ℕ) (r : SessionRecord F)
      → is_over (finish max_events event now r).state ≡ true
  unfolding finish
  finish-is_over max_events event now r = refl

module _ {F A : Type 0} where
  -- The session is there, and it has ended.
  abbrev Over : Text → SemanticEngineService F A → SessionSnapshot → Type 0
  Over id s snapshot =
      (r : SessionRecord F) × (known id s ≡ ok r)
      × (is_over r.state ≡ true)
      × (session_snapshot r ≡ snapshot)

  end_active-eq-ok :
      (ext : Externals F) (env : Env) (s : SemanticEngineService F A) (r : SessionRecord F)
      {t : SemanticEngineService F A} {snapshot : SessionSnapshot}
      → end_active ext env r s ≡ ok (t, snapshot)
      → (now : ℕ) × (let f =
            finish s.config.max_events_per_session
              (new_session_event r now SessionEventKind.session_ended)
              now in
          (t.sessions ≡ update_record r.session_id f s.sessions)
          × (snapshot ≡ session_snapshot (f r)))
  unfolding end_active now_or
  end_active-eq-ok ext env s r {t} {snapshot} e = elim (Option-cases (env.now_ms 0)) [
    | inl unknown ↦ absurd (ground (arith, unknown))
    | inr (now, read) ↦ (now, (ground (arith, read), ground (arith, read)))
  ]

  known-record :
      (id : Text) (s : SemanticEngineService F A) {r : SessionRecord F}
      → known id s ≡ ok r
      → (valid_session_identifier id ≡ true) × (find_record id s.sessions ≡ some r)
  unfolding known
  known-record id s e = (ground arith, ground arith)

  known-Over :
      (id : Text) (s : SemanticEngineService F A) {r : SessionRecord F}
      → valid_session_identifier id ≡ true
      → find_record id s.sessions ≡ some r
      → is_over r.state ≡ true
      → Over id s (session_snapshot r)
  unfolding known
  known-Over id s {r} valid found over = (r, ground (arith, valid, found), over, refl)

  end_found-Over :
      (ext : Externals F) (env : Env) (id : Text) (s : SemanticEngineService F A)
      (r : SessionRecord F) {snapshot : SessionSnapshot}
      → known id s ≡ ok r
      → (end_found ext env s (ok r)).1 ≡ ok snapshot
      → Over id (end_found ext env s (ok r)).0 snapshot
  unfolding end_found or_unchanged
  end_found-Over ext env id s r {snapshot} found e = elim (Bool-cases (is_over r.state)) [
    | inl over ↦ (r, ground (arith, over, found), over, ground (arith, over))
    | inr live ↦ elim (Result-cases (end_active ext env r s)) [
      | inl ((t, snap), done) ↦
          let (now, (sessions, shown)) = end_active-eq-ok ext env s r done in
          let keep = s.config.max_events_per_session in
          let event = new_session_event r now SessionEventKind.session_ended in
          let f : SessionRecord F → SessionRecord F = finish keep event now in
          let (valid, present) = known-record id s found in
          let there : find_record id t.sessions ≡ some (f r) =
            subst (λ rs. find_record id rs ≡ some (f r)) (sym sessions)
              (subst (λ k. find_record id (update_record k f s.sessions) ≡ some (f r))
                (sym (find_record-id id s.sessions present))
                (find_record-update id f (λ x. finish-id keep event now x) s.sessions present)) in
          let over : Over id t (session_snapshot (f r)) =
            known-Over id t valid there (finish-is_over keep event now r) in
          let q : end_found ext env s (ok r) ≡ (t, ok snap) = ground (arith, live, done) in
          let told : session_snapshot (f r) ≡ snapshot = ground (arith, q, e, shown) in
          subst (λ x. Over id x.0 snapshot) (sym q) (subst (Over id t) told over)
      | inr (x, failed) ↦ absurd (ground (arith, live, failed))
    ]
  ]

  end_session-Over :
      (ext : Externals F) (env : Env) (id : Text) (s : SemanticEngineService F A)
      {snapshot : SessionSnapshot}
      → (end_session ext env id s).1 ≡ ok snapshot
      → Over id (end_session ext env id s).0 snapshot
  unfolding end_session
  end_session-Over ext env id s {snapshot} e = go (known id s) refl e
    where
      go :
          (k : Result ServiceError (SessionRecord F))
          → known id s ≡ k
          → (end_found ext env s k).1 ≡ ok snapshot
          → Over id (end_found ext env s k).0 snapshot
      go (err x) found f = cc
      go (ok r) found f = end_found-Over ext env id s r found f

  end_session_again :
      (ext : Externals F) (env : Env) (id : Text) (t : SemanticEngineService F A)
      (snapshot : SessionSnapshot)
      → Over id t snapshot
      → end_session ext env id t ≡ (t, ok snapshot)
  unfolding end_session end_found
  end_session_again ext env id t snapshot (r, found, over, shown) =
      rw found (ground (arith, over, shown))

  live-Over :
      (id : Text) (t : SemanticEngineService F A) (snapshot : SessionSnapshot)
      → Over id t snapshot
      → live id t ≡ err session_ended
  unfolding live
  live-Over id t snapshot (r, found, over, shown) = rw found (ground (arith, over))

module _ (lib : Libraries) {A : Type 0} (ext : Externals lib.F64) (store : Audit lib.F64 A) where
  open lib use {F64}

  -- A session that was ended stays ended: whatever is submitted or resolved in it then is refused,
  -- ending it again gives the same snapshot, and none of these changes anything in the service.
  pub end_session-final :
      (env later : Env) (id : Text) (submission : Submission) (request : OperatorResolutionRequest)
      (s : SemanticEngineService F64 A) {snapshot : SessionSnapshot}
      → (end_session ext env id s).1 ≡ ok snapshot
      → let t = (end_session ext env id s).0 in
        (submit lib ext store later id submission t ≡ (t, err session_ended))
        × (resolve_session lib ext store later id request t ≡ (t, err session_ended))
        × (end_session ext later id t ≡ (t, ok snapshot))
  unfolding submit resolve_session session_resolution
  end_session-final env later id submission request s {snapshot} e =
      let t = (end_session ext env id s).0 in
      let over = end_session-Over ext env id s e in
      let refused = live-Over id t snapshot over in
      (
        rw (refused, submit) refl,
        rw (refused, resolve_session, session_resolution) refl,
        end_session_again ext later id t snapshot over,
      )
