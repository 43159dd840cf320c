-- ===== src/Service/Bounds.antt =====
-- What crates/semantic-engine-service/src/lib.rs keeps in memory is bounded by its configuration.
use semantic_engine.Common.{
  suc, ℕ, Text, Option, none, some, List, [], ◌∷◌, length, find, ◌≤◌, ◌<◌, ◌=t◌, ◌==◌, leb, ◌≡◌,
  arith, All, length-trim_front-le, length-append, Option-cases, Bool-cases, inl, inr,
}
use semantic_engine.Common.Results.{Result, ok, err, Result-cases}
use semantic_engine.Core.Libraries.{Libraries}
use semantic_engine.Core.Types.{Round, Submission, Validation}
use semantic_engine.MemoryStore.Types.{MemoryEntry, Table}
use semantic_engine.Service.Types.{
  ServiceError, ServiceConfig, CacheEntry, RecordedValidation, SessionRecord, SemanticEngineService,
}
use semantic_engine.Service.Externals.{Externals, Audit, Env}
use semantic_engine.Service.Cache.{
  elapsed, retain_fresh, remove_first, take_cached, prune_expired_cache, insert_cache,
}
use semantic_engine.Service.Fingerprints.{request_fingerprint}
use semantic_engine.Service.Validate.{
  serve, record_answer, conclude, redeliver, answer_new, answer_with, look_up_and_answer,
  answer_or_redeliver, validate, serve_taken, find_recorded,
}

module _ {F : Type 0} where
  length-remove_first-le :
      (key : List ℕ) (es : List (CacheEntry F)) → length (remove_first key es) ≤ length es
  unfolding remove_first
  length-remove_first-le key [] = omega arith
  length-remove_first-le key (e ∷ es) = ground (arith, length-remove_first-le key es)

  length-remove_first-lt :
      (key : List ℕ) (es : List (CacheEntry F)) {e : CacheEntry F}
      → find (λ (x : CacheEntry F). x.key =t key) es ≡ some e
      → length (remove_first key es) < length es
  unfolding remove_first
  length-remove_first-lt key [] h = cc
  length-remove_first-lt key (x ∷ es) {e} h = ground (arith, length-remove_first-lt key es {e = e})

  -- A session within the bounds on its events and its deliveries
  abbrev pub Fits : ServiceConfig → SessionRecord F → Type 0
  Fits config r =
      (length r.events ≤ config.max_events_per_session)
      × (length r.deliveries ≤ config.max_recorded_validations)

length-retain_fresh-le :
    {F : Type 0} (readings : ℕ → ℕ) (ttl k : ℕ) (entries : List (CacheEntry F))
    → length (retain_fresh readings ttl k entries) ≤ length entries
unfolding retain_fresh
length-retain_fresh-le readings ttl k [] = omega arith
length-retain_fresh-le readings ttl k (entry ∷ rest) =
    ground (arith, length-retain_fresh-le readings ttl (suc k) rest)

module _ {F A : Type 0} where
  pub record IsBounded (s : SemanticEngineService F A) : Type 0 where
    pub cached : length s.cache ≤ s.config.cache_capacity
    pub recorded : length s.recorded ≤ s.config.max_recorded_validations
    pub opened : length s.sessions ≤ s.config.max_sessions
    pub sessions : All (Fits s.config) s.sessions

  -- An operation that keeps the sessions and the configuration
  abbrev KeepsSessions : SemanticEngineService F A → SemanticEngineService F A → Type 0
  KeepsSessions s t = (t.sessions ≡ s.sessions) × (t.config ≡ s.config)

  prune-IsBounded :
      (readings : ℕ → ℕ) (s : SemanticEngineService F A)
      → IsBounded s
      → IsBounded (prune_expired_cache readings s)
  unfolding prune_expired_cache
  prune-IsBounded readings s b = record {
    cached = omega (arith, b.cached, length-retain_fresh-le readings s.config.cache_ttl 0 s.cache);
    recorded = b.recorded;
    opened = b.opened;
    sessions = b.sessions;
  }

  insert-IsBounded :
      (now : ℕ) (key : List ℕ) (v : Validation F) (s : SemanticEngineService F A)
      → IsBounded s
      → IsBounded (insert_cache now key v s)
  unfolding insert_cache
  insert-IsBounded now key v s b = elim (Bool-cases (s.config.cache_capacity == 0)) [
    | inl off ↦ rw (off, insert_cache) b
    | inr on ↦
        rw (on, insert_cache)
          (record {
            cached = length-trim_front-le s.config.cache_capacity _;
            recorded = b.recorded;
            opened = b.opened;
            sessions = b.sessions;
          })
  ]

  take-IsBounded :
      (now : ℕ) (key : List ℕ) (s : SemanticEngineService F A)
      → IsBounded s
      → IsBounded (take_cached now key s).0
  unfolding take_cached
  take-IsBounded now key s b =
      elim (Option-cases (find (λ (e : CacheEntry F). e.key =t key) s.cache)) [
        | inl gone ↦ rw (gone, take_cached) b
        | inr (entry, found) ↦
            let less = length-remove_first-lt key s.cache found in
            elim (Bool-cases (leb s.config.cache_ttl (elapsed now entry))) [
              | inl old ↦
                  rw (found, old, take_cached)
                    (record {
                      cached = omega (arith, less, b.cached);
                      recorded = b.recorded;
                      opened = b.opened;
                      sessions = b.sessions;
                    })
              | inr young ↦
                  rw (found, young, take_cached)
                    (record {
                      cached = omega (
                        arith,
                        less,
                        b.cached,
                        length-append (remove_first key s.cache) (entry ∷ []),
                      );
                      recorded = b.recorded;
                      opened = b.opened;
                      sessions = b.sessions;
                    })
            ]
      ]

  serve-IsBounded :
      (env : Env) (key : List ℕ) (round : Round F) (submission : Submission)
      (computed : Validation F) (s : SemanticEngineService F A)
      → IsBounded s
      → IsBounded (serve env key round submission computed s).0
  unfolding serve
  serve-IsBounded env key round submission computed s b =
      let taken = take-IsBounded (env.instant 0) key s b in
      go (take_cached (env.instant 0) key s) taken
    where
      go :
          (taken : SemanticEngineService F A × Option (Validation F))
          → IsBounded taken.0
          → IsBounded (serve_taken env key round submission computed taken).0
      go (t, some v) k = record {
        cached = k.cached;
        recorded = k.recorded;
        opened = k.opened;
        sessions = k.sessions;
      }
      go (t, none) k = insert-IsBounded (env.instant 1) key computed _ (record {
        cached = k.cached;
        recorded = k.recorded;
        opened = k.opened;
        sessions = k.sessions;
      })

  conclude-IsBounded :
      (store : Audit F A) (env : Env) (fingerprint : List ℕ) (round : Round F)
      (context : Option Text) (v : Validation F) (s : SemanticEngineService F A)
      (r : Result ServiceError Table)
      → IsBounded s
      → IsBounded (conclude store env fingerprint round context v s r).0
  unfolding conclude record_answer
  conclude-IsBounded store env fingerprint round context v s (err e) b = b
  conclude-IsBounded store env fingerprint round context v s (ok memory) b =
      elim (Result-cases
        (store.record_validation env.audit_io env.audit_clock s.audit v context).1) [
          | inl (done, written) ↦
              rw (written, record_answer)
                (record {
                  cached = b.cached;
                  recorded = length-trim_front-le s.config.max_recorded_validations _;
                  opened = b.opened;
                  sessions = b.sessions;
                })
          | inr (message, failed) ↦
              rw (failed, record_answer)
                (record {
                  cached = b.cached;
                  recorded = b.recorded;
                  opened = b.opened;
                  sessions = b.sessions;
                })
        ]

module _ (lib : Libraries) {A : Type 0} (ext : Externals lib.F64) (store : Audit lib.F64 A) where
  open lib use {F64}

  answer_with-IsBounded :
      (env : Env) (round : Round F64) (submission : Submission) (context : Option Text)
      (s : SemanticEngineService F64 A) (found : Result ServiceError (Table × List MemoryEntry))
      → IsBounded s
      → IsBounded (answer_with lib ext store env round submission context s found).0
  unfolding answer_with answer_new
  answer_with-IsBounded env round submission context s (err e) b = b
  answer_with-IsBounded env round submission context s (ok (memory, matches)) b =
      conclude-IsBounded store env _ round context _ _ _ (
        serve-IsBounded env _ round submission _ _ (record {
          cached = b.cached;
          recorded = b.recorded;
          opened = b.opened;
          sessions = b.sessions;
        }))

  pub validate-IsBounded :
      (env : Env) (round : Round F64) (submission : Submission) (context : Option Text)
      (s : SemanticEngineService F64 A)
      → IsBounded s
      → IsBounded (validate lib ext store env round submission context s).0
  unfolding validate answer_or_redeliver look_up_and_answer redeliver
  validate-IsBounded env round submission context s b =
      let t = prune_expired_cache env.pruned_at s in
      go (find_recorded round.id submission.message_id t.recorded)
        (prune-IsBounded env.pruned_at s b)
    where
      go :
          {t : SemanticEngineService F64 A} (found : Option (RecordedValidation F64))
          → IsBounded t
          → IsBounded (answer_or_redeliver lib ext store env round submission context t found).0
      go {t} none k = answer_with-IsBounded env round submission context t _ k
      go {t} (some r) k =
          elim (Bool-cases
            (r.request_fingerprint =t request_fingerprint ext round submission context)) [
              | inl same ↦
                  rw (same, answer_or_redeliver, redeliver)
                    (record {
                      cached = k.cached;
                      recorded = k.recorded;
                      opened = k.opened;
                      sessions = k.sessions;
                    })
              | inr other ↦ rw (other, answer_or_redeliver, redeliver) k
            ]
