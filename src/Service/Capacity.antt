-- ===== src/Service/Capacity.antt =====
-- The bounds of Service/Bounds on lists of sessions, as crates/semantic-engine-service/src/lib.rs
-- changes them.
use semantic_engine.Common.{
  Text, some, List, [], ◌∷◌, ◌++◌, length, find, ◌=t◌, ◌≤◌, ◌<◌, ◌≡◌, refl, arith, All,
  length-trim_front-le, Bool-cases, inl, inr,
}
use semantic_engine.Common.Results.{Result, ok, err}
use semantic_engine.Service.Types.{
  ServiceError, ServiceConfig, SessionEvent, SessionDelivery, SessionRecord, SemanticEngineService,
}
use semantic_engine.Service.Records.{is_over, update_record, push_session_event}
use semantic_engine.Service.Sessions.{remove_ended, or_unchanged}
use semantic_engine.Service.Submissions.{mark_emitted}
use semantic_engine.Service.Bounds.{Fits, IsBounded}

module _ {F : Type 0} where
  pub length-update_record :
      (id : Text) (f : SessionRecord F → SessionRecord F) (rs : List (SessionRecord F))
      → length (update_record id f rs) ≡ length rs
  unfolding update_record
  length-update_record id f [] = refl
  length-update_record id f (r ∷ rs) = ground (arith, length-update_record id f rs)

  pub update_record-Fits :
      (config : ServiceConfig) (id : Text) (f : SessionRecord F → SessionRecord F)
      → ((r : SessionRecord F) → Fits config r → Fits config (f r))
      → (rs : List (SessionRecord F)) → All (Fits config) rs
      → All (Fits config) (update_record id f rs)
  unfolding update_record
  update_record-Fits config id f keeps [] all = tt
  update_record-Fits config id f keeps (r ∷ rs) (fits, rest) =
      elim (Bool-cases (r.session_id =t id)) [
        | inl same ↦ rw (same, update_record) (keeps r fits, rest)
        | inr other ↦ rw (other, update_record) (fits, update_record-Fits config id f keeps rs rest)
      ]

  pub append-Fits :
      (config : ServiceConfig) (rs : List (SessionRecord F)) (r : SessionRecord F)
      → All (Fits config) rs
      → Fits config r
      → All (Fits config) (rs ++ r ∷ [])
  append-Fits config [] r all fits = (fits, tt)
  append-Fits config (x ∷ rs) r (first, rest) fits = (first, append-Fits config rs r rest fits)

  pub length-remove_ended-lt :
      (rs : List (SessionRecord F)) {r : SessionRecord F}
      → find (λ (x : SessionRecord F). is_over x.state) rs ≡ some r
      → length (remove_ended rs) < length rs
  unfolding remove_ended
  length-remove_ended-lt [] e = cc
  length-remove_ended-lt (x ∷ rs) {r} e = ground (arith, length-remove_ended-lt rs {r = r})

  pub remove_ended-Fits :
      (config : ServiceConfig) (rs : List (SessionRecord F))
      → All (Fits config) rs
      → All (Fits config) (remove_ended rs)
  unfolding remove_ended
  remove_ended-Fits config [] all = tt
  remove_ended-Fits config (r ∷ rs) (fits, rest) = elim (Bool-cases (is_over r.state)) [
    | inl over ↦ rw (over, remove_ended) rest
    | inr runs ↦ rw (runs, remove_ended) (fits, remove_ended-Fits config rs rest)
  ]

  pub length-mark_emitted :
      (id : Text) (ds : List (SessionDelivery F)) → length (mark_emitted id ds) ≡ length ds
  unfolding mark_emitted
  length-mark_emitted id [] = refl
  length-mark_emitted id (d ∷ ds) = ground (arith, length-mark_emitted id ds)

  pub push-Fits :
      (config : ServiceConfig) (event : SessionEvent F) (r : SessionRecord F)
      → Fits config r
      → Fits config (push_session_event config.max_events_per_session event r)
  unfolding push_session_event
  push-Fits config event r fits = (length-trim_front-le config.max_events_per_session _, fits.1)

module _ {F A : Type 0} where
  -- The sessions are replaced, and the rest that is bounded stays.
  abbrev pub Replaces :
      SemanticEngineService F A → List (SessionRecord F) → SemanticEngineService F A → Type 0
  Replaces s rs t =
      (t.config ≡ s.config) × (t.cache ≡ s.cache) × (t.recorded ≡ s.recorded) × (t.sessions ≡ rs)

  pub Replaces-IsBounded :
      (s t : SemanticEngineService F A) (rs : List (SessionRecord F))
      → IsBounded s
      → length rs ≤ s.config.max_sessions
      → All (Fits s.config) rs
      → Replaces s rs t
      → IsBounded t
  Replaces-IsBounded s t rs b few fits (config, cache, recorded, sessions) = record {
    cached = rw (cache, config) b.cached;
    recorded = rw (recorded, config) b.recorded;
    opened = rw (sessions, config) few;
    sessions = rw (sessions, config) fits;
  }

  pub update-IsBounded :
      (s t : SemanticEngineService F A) (id : Text) (f : SessionRecord F → SessionRecord F)
      → IsBounded s
      → ((r : SessionRecord F) → Fits s.config r → Fits s.config (f r))
      → Replaces s (update_record id f s.sessions) t
      → IsBounded t
  update-IsBounded s t id f b keeps same =
      Replaces-IsBounded s t (update_record id f s.sessions) b
        (omega (arith, b.opened, length-update_record id f s.sessions))
        (update_record-Fits s.config id f keeps s.sessions b.sessions) same

  pub or_unchanged-IsBounded {ℓ} :
      {B : Type ℓ} (s : SemanticEngineService F A)
      (r : Result ServiceError (SemanticEngineService F A × B))
      → IsBounded s
      → ((t : SemanticEngineService F A) (y : B) → r ≡ ok (t, y) → IsBounded t)
      → IsBounded (or_unchanged s r).0
  unfolding or_unchanged
  or_unchanged-IsBounded s (err e) b h = b
  or_unchanged-IsBounded s (ok (t, y)) b h = h t y refl
