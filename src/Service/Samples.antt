-- ===== src/Service/Samples.antt =====
-- A concrete service over the sample of Core/Samples: a hash that keeps its bytes, a codec that
-- writes a placeholder, and an audit that counts.
use semantic_engine.Common.{ℕ, suc, ◌*◌, none, some, [], ◌∷◌, text_of}
use semantic_engine.Common.Results.{ok}
use semantic_engine.Common.Machine.{io_ok, millis}
use semantic_engine.Core.Types.{OperatorResolutionRequest, ResolutionVerdict}
use semantic_engine.Core.Samples.{sample_round}
use semantic_engine.Service.Types.{ServiceConfig, StartSession, SemanticEngineService}
use semantic_engine.Service.Restore.{no_stats}
use semantic_engine.Service.Externals.{Externals, Audit, Env}

abbrev pub plain : Externals ℕ
plain = record {
  sha256 = λ bytes. bytes;
  to_bits = λ n. n;
  encode_definition = λ d. ok (text_of "{}");
  encode_event = λ e. ok (text_of "{}");
  encode_validation = λ v. ok (text_of "{}");
}

abbrev pub counting : Audit ℕ ℕ
counting = record {
  record_validation = λ io now n v context. (suc n, ok tt);
  record_resolution = λ io now n r. (suc n, ok tt);
  purge_all = λ io n. (0, ok n);
}

abbrev pub at : ℕ → Env
at now = record {
  pruned_at = λ k. now * 1000000;
  instant = λ k. now * 1000000;
  now_ms = λ k. some now;
  audit_io = io_ok;
  audit_clock = millis now;
  session_io = λ k. io_ok;
  memory_io = λ k. io_ok;
  entropy = some (7 ∷ 7 ∷ []);
}

abbrev pub small : ServiceConfig
small = record {
  max_recorded_validations = 2;
  cache_capacity = 2;
  cache_ttl = 600000000000;
  max_sessions = 1;
  max_events_per_session = 4;
  memory_capacity = 10;
  memory_ttl = 1000000000;
}

abbrev pub idle : SemanticEngineService ℕ ℕ
idle = record {
  audit = 0;
  session_store = record { sessions = []; events = []; deliveries = [] };
  memory = record { rows = []; next_row_id = 1 };
  memory_provenance_key = [];
  config = small;
  recorded = [];
  cache = [];
  sessions = [];
  stats = no_stats;
}

abbrev pub opening : StartSession ℕ
opening = record { session_id = text_of "s1"; round = sample_round; context_package_sha256 = none }

abbrev pub confirming : OperatorResolutionRequest
confirming = record {
  round_id = text_of "round-1";
  message_id = text_of "msg-1";
  verdict = ResolutionVerdict.accepted;
  target_id = some (text_of "elden-ring");
  note = [];
}
