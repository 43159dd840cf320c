-- ===== src/Service/AuditTests.antt =====
-- A run of crates/semantic-engine-service over the audit store, and its theorem there.
use semantic_engine.Common.{ℕ, true, text_of, none, [], ◌∷◌, refl, arith}
use semantic_engine.Core.Limits.{validation_issue}
use semantic_engine.Core.Normalize.{normalize_expression, compact}
use semantic_engine.Core.Samples.{sample, sample_round, submitted}
use semantic_engine.AuditStore.Types.{Tables}
use semantic_engine.AuditStore.Samples.{two_kept, empty, plain-RoundTrips}
use semantic_engine.AuditStore.Invariant.{IsKept}
use semantic_engine.AuditStore.Checks.{validate_retention}
use semantic_engine.Service.Types.{SemanticEngineService}
use semantic_engine.Service.Validate.{validate}
use semantic_engine.Service.Samples.{plain, small, at, opening}
use semantic_engine.Service.Restore.{no_stats}
use semantic_engine.Service.Bounds.{IsBounded}
use semantic_engine.Service.Memory.{recognition_memory}
use semantic_engine.Service.Sessions.{start_session}
use semantic_engine.Service.Submissions.{submit}
use semantic_engine.Service.History.{here, next, starts, submits, lists_memory, Reach-IsBounded}
use semantic_engine.Service.AuditLog.{audit_log, IsOnRecord, validate-OnRecord}

program : Unit {0}
unfolding validate semantic_engine.Core.Validate.validate validation_issue normalize_expression
    compact audit_log semantic_engine.Service.Recognition.validation_with_memory
    semantic_engine.Common.Text-discrete semantic_engine.Common.ℕ_discrete validate_retention
program = tt

abbrev log_empty : SemanticEngineService ℕ Tables
log_empty = record {
  audit = empty;
  session_store = record { sessions = []; events = []; deliveries = [] };
  memory = record { rows = []; next_row_id = 1 };
  memory_provenance_key = [];
  config = small;
  recorded = [];
  cache = [];
  sessions = [];
  stats = no_stats;
}

empty-IsKept : IsKept semantic_engine.AuditStore.Samples.plain 2 empty
empty-IsKept =
    (record { ascending = tt; below = tt; unique = tt; decoded = tt; linked = tt }, omega arith)

validate-OnRecord_example :
    let log = audit_log sample semantic_engine.AuditStore.Samples.plain two_kept in
    let u =
      (validate sample plain log
        (at 6)
        sample_round
        (submitted (text_of "elden ring!"))
        none
        log_empty).0 in
    IsOnRecord sample semantic_engine.AuditStore.Samples.plain two_kept plain-RoundTrips.reread
      (semantic_engine.Core.Validate.validate sample sample_round
        (submitted (text_of "elden ring!")))
      none
      u.audit
    × IsKept semantic_engine.AuditStore.Samples.plain 2 u.audit
unfolding program
validate-OnRecord_example =
    validate-OnRecord sample semantic_engine.AuditStore.Samples.plain two_kept plain-RoundTrips refl
      plain (at 6) sample_round (submitted (text_of "elden ring!")) none log_empty empty-IsKept refl
      refl

abbrev log_started : SemanticEngineService ℕ Tables
log_started = (start_session sample plain (at 5) opening log_empty).0

log_empty-IsBounded : IsBounded log_empty
log_empty-IsBounded = record {
  cached = omega arith;
  recorded = omega arith;
  opened = omega arith;
  sessions = tt;
}

abbrev log_answered : SemanticEngineService ℕ Tables
log_answered =
    (submit sample plain (audit_log sample semantic_engine.AuditStore.Samples.plain two_kept) (at 6)
      (text_of "s1") (submitted (text_of "elden ring!")) log_started).0

Reach-IsBounded_example : IsBounded (recognition_memory (at 7) (text_of "c") 3 true log_answered).0
Reach-IsBounded_example =
    Reach-IsBounded sample plain
      (audit_log sample semantic_engine.AuditStore.Samples.plain two_kept) log_empty-IsBounded
      (next
        (next (next here (starts (at 5) opening refl))
          (submits (at 6) (text_of "s1") (submitted (text_of "elden ring!")) refl))
        (lists_memory (at 7) (text_of "c") 3 true refl))
