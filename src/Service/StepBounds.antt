-- ===== src/Service/StepBounds.antt =====
-- The operations of crates/semantic-engine-service/src/lib.rs that change the stores but no session,
-- and the purge, stay within the configuration.
use semantic_engine.Common.{
  ℕ, Text, Bool, true, false, ◌≡◌, refl, subst, sym, arith, inl, inr, Bool-cases,
}
use semantic_engine.Common.Results.{Result, ok, err, Result-cases, ◌>>=◌, ok_or, map_err}
use semantic_engine.Common.Machine.{Io}
use semantic_engine.Core.Libraries.{Libraries}
use semantic_engine.Core.Types.{OperatorResolutionRequest}
use semantic_engine.Core.Resolve.{resolve_validation}
use semantic_engine.MemoryStore.Types.{MemoryEntry}
use semantic_engine.MemoryStore.Operations.{Context}
use semantic_engine.AuditStore.Types.{Tables}
use semantic_engine.Service.Types.{ServiceError, validation_missing, SemanticEngineService}
use semantic_engine.Service.Config.{now_or, resolution_error}
use semantic_engine.Service.Externals.{Externals, Audit, Env}
use semantic_engine.Service.Validate.{find_recorded, resolve}
use semantic_engine.Service.Memory.{
  with_memory, recognition_memory, revoke_memory, remember_session_resolution,
}
use semantic_engine.Service.Learning.{remember_session_resolution-Teaches}
use semantic_engine.Service.Bounds.{IsBounded}
use semantic_engine.Service.Forgotten.{transaction-emptied}
use semantic_engine.Service.Purge.{
  emptied, purge_persistent_data, cleared, after_transaction, purge_audit, after_memory,
  purge_memory, after_sessions, purge_stores, purge_local_data,
}

module _ {F A : Type 0} where
  -- All but the stores is the same.
  abbrev pub SameBut : SemanticEngineService F A → SemanticEngineService F A → Type 0
  SameBut s t =
      (t.config ≡ s.config)
      × (t.cache ≡ s.cache)
      × (t.recorded ≡ s.recorded)
      × (t.sessions ≡ s.sessions)

  pub SameBut-IsBounded :
      (s t : SemanticEngineService F A) → SameBut s t → IsBounded s → IsBounded t
  SameBut-IsBounded s t (config, cache, recorded, sessions) b = record {
    cached = rw (config, cache) b.cached;
    recorded = rw (config, recorded) b.recorded;
    opened = rw (config, sessions) b.opened;
    sessions = rw (config, sessions) b.sessions;
  }

  pub recognition_memory-SameBut :
      (env : Env) (context : Text) (limit : ℕ) (active_only : Bool) (s : SemanticEngineService F A)
      → SameBut s (recognition_memory env context limit active_only s).0
  unfolding recognition_memory with_memory
  recognition_memory-SameBut env context limit active_only s =
      elim (Result-cases (now_or (env.now_ms 0))) [
        | inr (x, unknown) ↦ rw (unknown, recognition_memory) (refl, refl, refl, refl)
        | inl (now, known) ↦ elim (Bool-cases active_only) [
          | inl active ↦ rw (known, recognition_memory, active) (refl, refl, refl, refl)
          | inr all ↦ rw (known, recognition_memory, all) (refl, refl, refl, refl)
        ]
      ]

  pub revoke_memory-SameBut :
      (env : Env) (context id : Text) (s : SemanticEngineService F A)
      → SameBut s (revoke_memory env context id s).0
  unfolding revoke_memory with_memory
  revoke_memory-SameBut env context id s = elim (Result-cases (now_or (env.now_ms 0))) [
    | inr (x, unknown) ↦ rw (unknown, revoke_memory) (refl, refl, refl, refl)
    | inl (now, known) ↦ rw (known, revoke_memory) (refl, refl, refl, refl)
  ]

module _ {F : Type 0} where
  after_memory-SameBut :
      (io : Io) (n : ℕ) (s : SemanticEngineService F Tables) (r : Result ServiceError ℕ)
      → SameBut s (after_memory io n s r).0
  unfolding after_memory purge_audit
  after_memory-SameBut io n s (ok k) = (refl, refl, refl, refl)
  after_memory-SameBut io n s (err x) = (refl, refl, refl, refl)

  after_sessions-SameBut :
      (c : Context) (io : Io) (s : SemanticEngineService F Tables) (r : Result ServiceError ℕ)
      → SameBut s (after_sessions c io s r).0
  unfolding after_sessions purge_memory
  after_sessions-SameBut c io s (ok k) = after_memory-SameBut io k _ _
  after_sessions-SameBut c io s (err x) = (refl, refl, refl, refl)

  cleared-IsBounded :
      (p : SemanticEngineService F Tables × Result ServiceError ℕ)
      → IsBounded p.0
      → IsBounded (cleared p).0
  unfolding cleared
  cleared-IsBounded (s, err x) b = b
  cleared-IsBounded (s, ok k) b = record {
    cached = omega arith;
    recorded = omega arith;
    opened = omega arith;
    sessions = tt;
  }

  after_transaction-IsBounded :
      (io : Io) (s : SemanticEngineService F Tables)
      (r : Result ServiceError (SemanticEngineService F Tables × ℕ))
      → purge_persistent_data io s ≡ r
      → IsBounded s
      → IsBounded (after_transaction s r).0
  unfolding after_transaction emptied
  after_transaction-IsBounded io s (err x) is_r b = b
  after_transaction-IsBounded io s (ok (t, n)) is_r b =
      subst IsBounded (sym (transaction-emptied io s is_r))
        (SameBut-IsBounded s (emptied s) (refl, refl, refl, refl) b)

  pub purge_local_data-IsBounded :
      (has_file : Bool) (io : Io) (c : Context) (audit_io : Io) (s : SemanticEngineService F Tables)
      → IsBounded s
      → IsBounded (purge_local_data has_file io c audit_io s).0
  unfolding purge_local_data purge_stores
  purge_local_data-IsBounded true io c audit_io s b =
      cleared-IsBounded _ (after_transaction-IsBounded io s _ refl b)
  purge_local_data-IsBounded false io c audit_io s b = cleared-IsBounded _ (
      SameBut-IsBounded s (purge_stores io c audit_io s).0 (after_sessions-SameBut c audit_io _ _)
        b)

module _ (lib : Libraries) {A : Type 0} (ext : Externals lib.F64) (store : Audit lib.F64 A) where
  open lib use {F64}

  pub resolve-SameBut :
      (env : Env) (request : OperatorResolutionRequest) (s : SemanticEngineService F64 A)
      → SameBut s (resolve lib ext store env request s).0
  unfolding resolve
  resolve-SameBut env request s =
      elim (Result-cases (
        ok_or (find_recorded request.round_id request.message_id s.recorded) validation_missing
        >>= λ r. map_err resolution_error (resolve_validation r.round r.validation request))) [
          | inr (x, refused) ↦ rw (refused, resolve) (refl, refl, refl, refl)
          | inl (resolution, given) ↦
              elim (Result-cases
                (store.record_resolution env.audit_io env.audit_clock s.audit resolution).1) [
                  | inr (x, failed) ↦ rw (given, resolve, failed) (refl, refl, refl, refl)
                  | inl (done, settled) ↦ rw (given, resolve, settled) (refl, refl, refl, refl)
                ]
        ]

  pub remember-SameBut :
      (env : Env) (id message_id : Text) (s : SemanticEngineService F64 A)
      {t : SemanticEngineService F64 A} {entry : MemoryEntry}
      → remember_session_resolution lib ext env id message_id s ≡ ok (t, entry)
      → SameBut s t
  remember-SameBut env id message_id s {t} {entry} e =
      let (r, found, (context, target, expression, now, teaches, kept, is_t)) =
        remember_session_resolution-Teaches lib ext env id message_id s e in
      rw is_t (refl, refl, refl, refl)
