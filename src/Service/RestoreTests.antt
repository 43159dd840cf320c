-- ===== src/Service/RestoreTests.antt =====
-- A service that starts on the tables of an earlier one, and that forgets everything.
use semantic_engine.Common.{ℕ, true, false, text_of, none, some, List, [], ◌∷◌, ◌≡◌, refl, Pairwise}
use semantic_engine.Common.Results.{ok, err}
use semantic_engine.Common.Machine.{io_ok}
use semantic_engine.Core.Samples.{sample}
use semantic_engine.MemoryStore.Operations.{Context}
use semantic_engine.AuditStore.Types.{ValidationRow}
use semantic_engine.SessionStore.Types.{Tables}
use semantic_engine.SessionStore.Loaded.{AreLoaded}
use semantic_engine.SessionStore.Loading.{StoredSession, load_sessions}
use semantic_engine.Service.Types.{SemanticEngineService, session_store}
use semantic_engine.Service.Fingerprints.{session_definition_fingerprint}
use semantic_engine.Service.Bounds.{IsBounded}
use semantic_engine.Service.Restore.{no_stats, Decoders, new_with_stores}
use semantic_engine.Service.Restored.{IsRestored, new_with_stores-Restores}
use semantic_engine.Service.Samples.{plain, small, idle, opening}
use semantic_engine.Service.Purge.{purge_local_data}
use semantic_engine.Service.Forgotten.{Forgets, purge_local_data-Forgets}

abbrev reading : Decoders ℕ
reading = record {
  decode_definition = λ text. ok opening;
  decode_event = λ text. err (text_of "no event");
  decode_validation = λ text. err (text_of "no validation");
}

abbrev stored : List ℕ → Tables
stored fingerprint = record {
  sessions =
      record {
        session_id = text_of "s1";
        definition_fingerprint = fingerprint;
        definition_json = text_of "{}";
        state = semantic_engine.SessionStore.Types.active;
        created_at_ms = 5;
        ended_at_ms = none;
        latest_event_sequence = 1;
      }
      ∷ [];
  events = [];
  deliveries = [];
}

abbrev restarted : SemanticEngineService ℕ ℕ
restarted = record idle {
  session_store = stored (session_definition_fingerprint plain opening);
  memory_provenance_key = 7 ∷ [];
  sessions =
      record {
        definition_fingerprint = session_definition_fingerprint plain opening;
        session_id = opening.session_id;
        round = opening.round;
        context_package_sha256 = none;
        state = semantic_engine.Service.Types.active;
        created_at_ms = 5;
        ended_at_ms = none;
        latest_event_sequence = 1;
        events = [];
        deliveries = [];
      }
      ∷ [];
}

restarts :
    new_with_stores sample plain reading small {A = ℕ} io_ok
      (some (7 ∷ []))
      0
      (stored (session_definition_fingerprint plain opening))
      idle.memory
    ≡ ok restarted
unfolding new_with_stores load_sessions semantic_engine.Core.Validate.validate
    semantic_engine.Core.Limits.validation_issue semantic_engine.Core.Normalize.normalize_expression
    semantic_engine.Common.Text-discrete semantic_engine.Common.ℕ_discrete
    semantic_engine.Core.Normalize.compact semantic_engine.Core.Fuzzy.validate_fuzzy
    semantic_engine.Core.Fuzzy.scored semantic_engine.Core.Normalize.fuzzy_score
restarts = refl

-- The definition no longer has the fingerprint of the row.
refuses :
    new_with_stores sample plain reading small {A = ℕ} io_ok
      (some (7 ∷ []))
      0
      (stored (1 ∷ []))
      idle.memory
    ≡ err (session_store (text_of "durable session definition fingerprint is invalid"))
unfolding new_with_stores load_sessions semantic_engine.Core.Validate.validate
    semantic_engine.Core.Limits.validation_issue semantic_engine.Core.Normalize.normalize_expression
    semantic_engine.Common.Text-discrete semantic_engine.Common.ℕ_discrete
    semantic_engine.Core.Normalize.compact semantic_engine.Core.Fuzzy.validate_fuzzy
    semantic_engine.Core.Fuzzy.scored semantic_engine.Core.Normalize.fuzzy_score
refuses = refl

new_with_stores-Restores_example :
    IsBounded restarted
    × (restarted.config ≡ small)
    × (restarted.session_store ≡ stored (session_definition_fingerprint plain opening))
    × ((loaded : List StoredSession) × AreLoaded restarted.session_store loaded
        × Pairwise (IsRestored sample plain reading small) loaded restarted.sessions)
new_with_stores-Restores_example =
    new_with_stores-Restores sample plain reading small io_ok (some (7 ∷ [])) 0
      (stored (session_definition_fingerprint plain opening)) idle.memory restarts

abbrev first_row : ValidationRow
first_row = record {
  sequence = 1;
  round_id = text_of "round-1";
  message_id = text_of "m1";
  source_sequence = 1;
  recorded_at_ms = 1;
  payload_json = text_of "{}";
}

-- The service that was restarted, over an audit with a row
abbrev logged : SemanticEngineService ℕ semantic_engine.AuditStore.Types.Tables
logged = record {
  audit = record { validations = first_row ∷ []; resolutions = []; next_sequence = 2 };
  session_store = restarted.session_store;
  memory = idle.memory;
  memory_provenance_key = 7 ∷ [];
  config = small;
  recorded = [];
  cache = [];
  sessions = restarted.sessions;
  stats = no_stats;
}

abbrev context : Context
context = record { io = io_ok; now_ms = 1; entropy = none }

purges : (purge_local_data false io_ok context io_ok logged).1 ≡ ok 2
unfolding purge_local_data
purges = refl

-- One transaction on the file of the stores
purges_file : (purge_local_data true io_ok context io_ok logged).1 ≡ ok 2
unfolding purge_local_data
purges_file = refl

purge_local_data-Forgets_example : Forgets (purge_local_data false io_ok context io_ok logged).0
purge_local_data-Forgets_example = purge_local_data-Forgets false io_ok context io_ok logged purges
