-- ===== src/Service/Purge.antt =====
-- `purge_local_data` of crates/semantic-engine-service/src/lib.rs, with the audit store behind the
-- service.
use semantic_engine.Common.{ℕ, Bool, true, false, [], length}
use semantic_engine.Common.Results.{Result, ok, err, ◌>>=◌, ◌>>◌, map_err}
use semantic_engine.Common.Machine.{Io, statement, saturating_add}
use semantic_engine.MemoryStore.Operations.{Context}
use semantic_engine.AuditStore.Checks.{audit_message}
use semantic_engine.AuditStore.Types.{Tables}
use semantic_engine.AuditStore.Operations.{keep_validations}
use semantic_engine.AuditStore.Record.{purge_all}
use semantic_engine.Service.Types.{ServiceError, internal, audit, SemanticEngineService}
use semantic_engine.Service.Config.{from_memory_error, from_session_error}

-- The numbers of rows that were deleted
abbrev pub total : ℕ → ℕ → ℕ → ℕ
total sessions memory audits = saturating_add (saturating_add sessions memory) audits

module _ {F : Type 0} where
  -- The service without any row in its tables
  unfoldable pub emptied : SemanticEngineService F Tables → SemanticEngineService F Tables
  unfolding keep_validations
  emptied s = record s {
    audit = keep_validations (λ r. false) s.audit;
    session_store = record { sessions = []; events = []; deliveries = [] };
    memory = record s.memory { rows = [] };
  }

  -- `purge_persistent_data`: one transaction on the file of the three stores
  unfoldable pub purge_persistent_data :
      Io → SemanticEngineService F Tables → Result ServiceError (SemanticEngineService F Tables × ℕ)
  unfolding emptied
  purge_persistent_data io s = do
    statement internal (io 0)
    statement internal (io 1)
    statement internal (io 2)
    statement internal (io 3)
    statement internal (io 4)
    statement internal (io 5)
    statement internal (io 6)
    statement internal (io 7)
    ok (
      emptied s,
      total (length s.session_store.sessions) (length s.memory.rows) (length s.audit.validations),
    )

  -- After the stores: `recorded`, `cache` and `sessions` are cleared.
  unfoldable pub cleared :
      SemanticEngineService F Tables × Result ServiceError ℕ
      → SemanticEngineService F Tables × Result ServiceError ℕ
  cleared (s, err e) = (s, err e)
  cleared (s, ok deleted) = (record s { recorded = []; cache = []; sessions = [] }, ok deleted)

  unfoldable pub after_transaction :
      SemanticEngineService F Tables
      → Result ServiceError (SemanticEngineService F Tables × ℕ)
      → SemanticEngineService F Tables × Result ServiceError ℕ
  after_transaction s (err e) = (s, err e)
  after_transaction s (ok (t, deleted)) = (t, ok deleted)

  -- The stores one after the other, where they have no file: what was purged stays so.
  unfoldable pub purge_audit :
      Io
      → ℕ
      → ℕ
      → SemanticEngineService F Tables
      → SemanticEngineService F Tables × Result ServiceError ℕ
  unfolding purge_all audit_message
  purge_audit io sessions memory s =
      let (a, answer) = purge_all io s.audit in
      (
        record s { audit = a },
        map_err (λ e. audit (audit_message e)) answer >>= λ audits.
            ok (total sessions memory audits),
      )

  unfoldable pub after_memory :
      Io
      → ℕ
      → SemanticEngineService F Tables
      → Result ServiceError ℕ
      → SemanticEngineService F Tables × Result ServiceError ℕ
  unfolding purge_audit
  after_memory io sessions s (err e) = (s, err e)
  after_memory io sessions s (ok memory) = purge_audit io sessions memory s

  unfoldable pub purge_memory :
      Context
      → Io
      → ℕ
      → SemanticEngineService F Tables
      → SemanticEngineService F Tables × Result ServiceError ℕ
  unfolding semantic_engine.MemoryStore.Operations.purge_all from_memory_error after_memory
  purge_memory c io sessions s =
      let (m, answer) = semantic_engine.MemoryStore.Operations.purge_all c s.memory in
      after_memory io sessions (record s { memory = m }) (map_err from_memory_error answer)

  unfoldable pub after_sessions :
      Context
      → Io
      → SemanticEngineService F Tables
      → Result ServiceError ℕ
      → SemanticEngineService F Tables × Result ServiceError ℕ
  unfolding purge_memory
  after_sessions c io s (err e) = (s, err e)
  after_sessions c io s (ok sessions) = purge_memory c io sessions s

  unfoldable pub purge_stores :
      Io
      → Context
      → Io
      → SemanticEngineService F Tables
      → SemanticEngineService F Tables × Result ServiceError ℕ
  unfolding semantic_engine.SessionStore.Operations.purge_all from_session_error after_sessions
  purge_stores session_io c audit_io s =
      let (t, answer) =
        semantic_engine.SessionStore.Operations.purge_all session_io s.session_store in
      after_sessions c audit_io (record s { session_store = t }) (map_err from_session_error answer)

  -- With a database file, or with the stores in memory
  unfoldable pub purge_local_data :
      (has_file : Bool) (io : Io) (c : Context) (audit_io : Io)
      → SemanticEngineService F Tables
      → SemanticEngineService F Tables × Result ServiceError ℕ
  unfolding cleared after_transaction purge_persistent_data purge_stores
  purge_local_data true io c audit_io s = cleared (after_transaction s (purge_persistent_data io s))
  purge_local_data false io c audit_io s = cleared (purge_stores io c audit_io s)
