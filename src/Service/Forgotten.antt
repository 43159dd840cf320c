-- ===== src/Service/Forgotten.antt =====
-- What `purge_local_data` of crates/semantic-engine-service/src/lib.rs leaves.
use semantic_engine.Common.{
  ℕ, zero, suc, Text, Bool, true, false, Option, List, [], ◌∷◌, retain, length, ◌≡◌, refl, sym, ap,
  ◌∙◌, subst, arith, inl, inr, Option-cases,
}
use semantic_engine.Common.Results.{
  Result, ok, err, map_err, >>=-eq-ok, >>-eq-ok, map_err-eq-ok, ok-injective,
}
use semantic_engine.Common.Machine.{Io, statement}
use semantic_engine.MemoryStore.Types.{Table}
use semantic_engine.MemoryStore.Operations.{Context}
use semantic_engine.AuditStore.Types.{Tables, AuditError}
use semantic_engine.AuditStore.Operations.{keep_validations}
use semantic_engine.AuditStore.Record.{purge_all, vacuumed, deleted_after}
use semantic_engine.AuditStore.Checks.{audit_message}
use semantic_engine.Service.Types.{ServiceError, internal, audit, SemanticEngineService}
use semantic_engine.Service.Purge.{
  emptied, purge_persistent_data, cleared, after_transaction, purge_audit, purge_stores,
  purge_local_data, after_memory, purge_memory, after_sessions,
}

retain-false {ℓ} : {A : Type ℓ} (xs : List A) → retain (λ x. false) xs ≡ []
retain-false [] = refl
retain-false (x ∷ xs) = retain-false xs

-- Nothing is left in the audit.
abbrev pub IsEmptyAudit : Tables → Type 0
IsEmptyAudit t = (t.validations ≡ []) × (t.resolutions ≡ [])

keep_none-IsEmptyAudit : (t : Tables) → IsEmptyAudit (keep_validations (λ r. false) t)
unfolding keep_validations
keep_none-IsEmptyAudit t =
    (retain-false t.validations, rw (retain-false t.validations) (retain-false t.resolutions))

vacuumed-rows : (answer : Option Text) (t : Tables) (n : ℕ) → (vacuumed answer t n).0 ≡ t
unfolding vacuumed
vacuumed-rows answer t zero = refl
vacuumed-rows answer t (suc n) = refl

deleted_after-ok :
    (r : Result AuditError (Unit {0})) (t : Tables) (done : Tables × Result AuditError ℕ) {n : ℕ}
    → (deleted_after r t done).1 ≡ ok n
    → (deleted_after r t done).0 ≡ done.0
unfolding deleted_after
deleted_after-ok (ok ran) t done e = refl
deleted_after-ok (err bad) t done e = ground (arith, e)

purge_all-IsEmptyAudit :
    (io : Io) (t : Tables) {n : ℕ} → (purge_all io t).1 ≡ ok n → IsEmptyAudit (purge_all io t).0
unfolding purge_all
purge_all-IsEmptyAudit io t e =
    subst IsEmptyAudit
      (sym (deleted_after-ok _ t _ e ∙ vacuumed-rows (io 1) _ (length t.validations)))
      (keep_none-IsEmptyAudit t)

memory-no_rows :
    (c : Context) (m : Table) {n : ℕ}
    → (semantic_engine.MemoryStore.Operations.purge_all c m).1 ≡ ok n
    → (semantic_engine.MemoryStore.Operations.purge_all c m).0.rows ≡ []
unfolding semantic_engine.MemoryStore.Operations.purge_all
memory-no_rows c m e = elim (Option-cases (c.io 0)) [
  | inr (message, fails) ↦ ground (arith, fails, e)
  | inl runs ↦ rw (runs, semantic_engine.MemoryStore.Operations.purge_all) refl
]

-- The session store has no rows.
abbrev pub HasNoSessions : semantic_engine.SessionStore.Types.Tables → Type 0
HasNoSessions t = (t.sessions ≡ []) × (t.events ≡ []) × (t.deliveries ≡ [])

sessions-no_rows :
    (io : Io) (t : semantic_engine.SessionStore.Types.Tables) {n : ℕ}
    → (semantic_engine.SessionStore.Operations.purge_all io t).1 ≡ ok n
    → HasNoSessions (semantic_engine.SessionStore.Operations.purge_all io t).0
unfolding semantic_engine.SessionStore.Operations.purge_all
sessions-no_rows io t e = elim (Option-cases (io 0)) [
  | inr (message, fails) ↦ ground (arith, fails, e)
  | inl runs ↦ rw (runs, semantic_engine.SessionStore.Operations.purge_all) (refl, refl, refl)
]

module _ {F : Type 0} where
  -- The stores behind the service have no rows.
  abbrev pub HasNoRows : SemanticEngineService F Tables → Type 0
  HasNoRows s = HasNoSessions s.session_store × ((s.memory.rows ≡ []) × IsEmptyAudit s.audit)

  purge_audit-HasNoRows :
      (io : Io) (sessions memory : ℕ) (s : SemanticEngineService F Tables) {n : ℕ}
      → HasNoSessions s.session_store
      → s.memory.rows ≡ []
      → (purge_audit io sessions memory s).1 ≡ ok n
      → HasNoRows (purge_audit io sessions memory s).0
  unfolding purge_audit
  purge_audit-HasNoRows io sessions memory s no_sessions no_memory e =
      let (audits, deleted, e1) =
        >>=-eq-ok (map_err (λ e. audit (audit_message e)) (purge_all io s.audit).1) _ e in
      (no_sessions, (no_memory, purge_all-IsEmptyAudit io s.audit (map_err-eq-ok _ _ deleted)))

  after_memory-HasNoRows :
      (io : Io) (sessions : ℕ) (s : SemanticEngineService F Tables) (r : Result ServiceError ℕ)
      {n : ℕ}
      → HasNoSessions s.session_store
      → ((k : ℕ) → r ≡ ok k → s.memory.rows ≡ [])
      → (after_memory io sessions s r).1 ≡ ok n
      → HasNoRows (after_memory io sessions s r).0
  unfolding after_memory
  after_memory-HasNoRows io sessions s (err bad) no_sessions no_memory e = ground (arith, e)
  after_memory-HasNoRows io sessions s (ok k) no_sessions no_memory e =
      purge_audit-HasNoRows io sessions k s no_sessions (no_memory k refl) e

  purge_memory-HasNoRows :
      (c : Context) (io : Io) (sessions : ℕ) (s : SemanticEngineService F Tables) {n : ℕ}
      → HasNoSessions s.session_store
      → (purge_memory c io sessions s).1 ≡ ok n
      → HasNoRows (purge_memory c io sessions s).0
  unfolding purge_memory
  purge_memory-HasNoRows c io sessions s no_sessions e =
      after_memory-HasNoRows io sessions _ _ no_sessions
        (λ k deleted. memory-no_rows c s.memory (map_err-eq-ok _ _ deleted)) e

  after_sessions-HasNoRows :
      (c : Context) (io : Io) (s : SemanticEngineService F Tables) (r : Result ServiceError ℕ)
      {n : ℕ}
      → ((k : ℕ) → r ≡ ok k → HasNoSessions s.session_store)
      → (after_sessions c io s r).1 ≡ ok n
      → HasNoRows (after_sessions c io s r).0
  unfolding after_sessions
  after_sessions-HasNoRows c io s (err bad) no_sessions e = ground (arith, e)
  after_sessions-HasNoRows c io s (ok k) no_sessions e =
      purge_memory-HasNoRows c io k s (no_sessions k refl) e

  purge_stores-HasNoRows :
      (session_io : Io) (c : Context) (io : Io) (s : SemanticEngineService F Tables) {n : ℕ}
      → (purge_stores session_io c io s).1 ≡ ok n
      → HasNoRows (purge_stores session_io c io s).0
  unfolding purge_stores
  purge_stores-HasNoRows session_io c io s e =
      after_sessions-HasNoRows c io _ _
        (λ k deleted. sessions-no_rows session_io s.session_store (map_err-eq-ok _ _ deleted)) e

  emptied-HasNoRows : (s : SemanticEngineService F Tables) → HasNoRows (emptied s)
  unfolding emptied
  emptied-HasNoRows s = ((refl, refl, refl), (refl, keep_none-IsEmptyAudit s.audit))

  -- The answer of the transaction, which has nothing but a failure or the emptied service
  pub transaction-emptied :
      (io : Io) (s : SemanticEngineService F Tables) {t : SemanticEngineService F Tables} {n : ℕ}
      → purge_persistent_data io s ≡ ok (t, n)
      → t ≡ emptied s
  unfolding purge_persistent_data
  transaction-emptied io s e =
      let (u0, e0) = >>-eq-ok (statement internal (io 0)) _ e in
      let (u1, e1) = >>-eq-ok (statement internal (io 1)) _ e0 in
      let (u2, e2) = >>-eq-ok (statement internal (io 2)) _ e1 in
      let (u3, e3) = >>-eq-ok (statement internal (io 3)) _ e2 in
      let (u4, e4) = >>-eq-ok (statement internal (io 4)) _ e3 in
      let (u5, e5) = >>-eq-ok (statement internal (io 5)) _ e4 in
      let (u6, e6) = >>-eq-ok (statement internal (io 6)) _ e5 in
      let (u7, e7) = >>-eq-ok (statement internal (io 7)) _ e6 in
      sym (ap (λ p. p.0) (ok-injective (emptied s, _) _ e7))

  after_transaction-HasNoRows :
      (io : Io) (s : SemanticEngineService F Tables)
      (r : Result ServiceError (SemanticEngineService F Tables × ℕ)) {n : ℕ}
      → purge_persistent_data io s ≡ r
      → (after_transaction s r).1 ≡ ok n
      → HasNoRows (after_transaction s r).0
  unfolding after_transaction
  after_transaction-HasNoRows io s (err bad) is_r e = ground (arith, e)
  after_transaction-HasNoRows io s (ok (t, k)) is_r e =
      subst HasNoRows (sym (transaction-emptied io s is_r)) (emptied-HasNoRows s)

  -- Nothing of the messages is left, neither in the stores nor in the memory of the process.
  abbrev pub Forgets : SemanticEngineService F Tables → Type 0
  Forgets s = HasNoRows s × ((s.recorded ≡ []) × ((s.cache ≡ []) × (s.sessions ≡ [])))

  cleared-Forgets :
      (p : SemanticEngineService F Tables × Result ServiceError ℕ) {n : ℕ}
      → ((k : ℕ) → p.1 ≡ ok k → HasNoRows p.0)
      → (cleared p).1 ≡ ok n
      → Forgets (cleared p).0
  unfolding cleared
  cleared-Forgets (s, err bad) no_rows e = ground (arith, e)
  cleared-Forgets (s, ok k) no_rows e = (no_rows k refl, (refl, (refl, refl)))

  -- When the purge answers that it is done, with a file behind the stores or without, no row is left in
  -- the tables of the sessions, of the memory and of the audit, and the service holds no recorded
  -- answer, no cached answer and no session.
  pub purge_local_data-Forgets :
      (has_file : Bool) (io : Io) (c : Context) (audit_io : Io) (s : SemanticEngineService F Tables)
      {n : ℕ}
      → (purge_local_data has_file io c audit_io s).1 ≡ ok n
      → Forgets (purge_local_data has_file io c audit_io s).0
  unfolding purge_local_data
  purge_local_data-Forgets true io c audit_io s e =
      cleared-Forgets _ (λ k deleted. after_transaction-HasNoRows io s _ refl deleted) e
  purge_local_data-Forgets false io c audit_io s e =
      cleared-Forgets _ (λ k deleted. purge_stores-HasNoRows io c audit_io s deleted) e
