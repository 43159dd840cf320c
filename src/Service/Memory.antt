-- ===== src/Service/Memory.antt =====
-- The operations of crates/semantic-engine-service/src/lib.rs on the recognition memory.
use semantic_engine.Common.{
  ℕ, Text, Bool, Option, none, some, List, [], ◌∷◌, ◌&&◌, ◌=t◌, if◌then◌else◌, length, text_of,
  holds,
}
use semantic_engine.Common.Results.{Result, ok, err, ◌>>=◌, ◌>>◌, guard, ok_or, map_err}
use semantic_engine.Core.Libraries.{Libraries}
use semantic_engine.Core.Types.{Decision, Decision-discrete, OperatorResolution}
use semantic_engine.MemoryStore.Types.{MemoryEntry, MemoryError, Table}
use semantic_engine.MemoryStore.Operations.{remember, list, list_active, revoke}
use semantic_engine.Service.Types.{
  ServiceError, invalid_session, session_missing, memory_rejected, SessionEventKind,
  session_started, validation_recorded, resolution_recorded, session_ended, SessionEvent,
  SessionDelivery, SessionRecord, ServiceStats, SemanticEngineService,
}
use semantic_engine.Service.Config.{memory_policy, from_memory_error, now_or}
use semantic_engine.Service.Externals.{Externals, Env}
use semantic_engine.Service.Fingerprints.{memory_source_fingerprint}
use semantic_engine.Service.Records.{valid_session_identifier, find_record, find_delivery}
use semantic_engine.Service.Recognition.{memory_context}

module _ {F : Type 0} where
  -- The `match` of the `find_map`
  unfoldable pub resolution_of : Text → SessionEventKind F → Option OperatorResolution
  resolution_of message_id (resolution_recorded resolution) =
      if resolution.message_id =t message_id then some resolution else none
  resolution_of message_id (session_started round_id context) = none
  resolution_of message_id (validation_recorded validation) = none
  resolution_of message_id session_ended = none

  -- `iter().rev().find_map(..)`: the newest resolution of the message
  unfoldable pub last_resolution : Text → List (SessionEvent F) → Option OperatorResolution
  unfolding resolution_of
  last_resolution message_id [] = none
  last_resolution message_id (event ∷ events) = elim (last_resolution message_id events) [
    | some later ↦ some later
    | none ↦ resolution_of message_id event.kind
  ]

  -- `and_then(|delivery| delivery.submission_text.as_deref())`
  unfoldable pub text_of_delivery : Option (SessionDelivery F) → Option Text
  text_of_delivery none = none
  text_of_delivery (some delivery) = delivery.submission_text

  -- What `remember_session_resolution` takes from the session: the context, the target and the
  -- source expression.
  unfoldable pub lesson : Text → SessionRecord F → Result ServiceError (Text × Text × Text)
  unfolding last_resolution find_delivery text_of_delivery
  lesson message_id found = do
    context ←
        ok_or found.context_package_sha256
          (memory_rejected (text_of "versioned context is required"))
    resolution ←
        ok_or (last_resolution message_id found.events)
          (memory_rejected (text_of "an operator resolution is required"))
    source_expression ←
        ok_or (text_of_delivery (find_delivery message_id found.deliveries))
          (memory_rejected (text_of "the transient source expression is no longer available"))
    guard (holds (Decision-discrete resolution.final_decision Decision.accepted))
        (memory_rejected (text_of "only accepted operator resolutions can be learned"))
    target_id ←
        ok_or resolution.target_id (memory_rejected (text_of "accepted resolution has no target"))
    ok (context, target_id, source_expression)

module _ {F A : Type 0} where
  -- An operation of the memory store in the service
  unfoldable pub with_memory {ℓ} :
      {B : Type ℓ}
      → SemanticEngineService F A
      → Table × Result MemoryError B
      → SemanticEngineService F A × Result ServiceError B
  unfolding from_memory_error
  with_memory s (memory, answer) = (record s { memory = memory }, map_err from_memory_error answer)

  unfoldable pub recognition_memory :
      Env
      → Text
      → ℕ
      → Bool
      → SemanticEngineService F A
      → SemanticEngineService F A × Result ServiceError (List MemoryEntry)
  unfolding now_or with_memory
  recognition_memory env context limit active_only s = elim (now_or (env.now_ms 0)) [
    | err e ↦ (s, err e)
    | ok now ↦
        if active_only
        then with_memory s (list_active (memory_context env 0 now) s.memory context limit)
        else with_memory s (list (memory_context env 0 now) s.memory context limit)
  ]

  unfoldable pub revoke_memory :
      Env
      → Text
      → Text
      → SemanticEngineService F A
      → SemanticEngineService F A × Result ServiceError MemoryEntry
  unfolding now_or with_memory
  revoke_memory env context id s = elim (now_or (env.now_ms 0)) [
    | err e ↦ (s, err e)
    | ok now ↦ with_memory s (revoke (memory_context env 0 now) s.memory context id)
  ]

  -- `stats`
  unfoldable pub current_stats : SemanticEngineService F A → ServiceStats
  current_stats s = record s.stats { cache_entries = length s.cache }

module _ (lib : Libraries) {A : Type 0} (ext : Externals lib.F64) where
  open lib use {F64}

  unfoldable pub remember_session_resolution :
      Env
      → Text
      → Text
      → SemanticEngineService F64 A
      → Result ServiceError (SemanticEngineService F64 A × MemoryEntry)
  unfolding valid_session_identifier find_record lesson now_or from_memory_error
  remember_session_resolution env session_id message_id s = do
    guard (valid_session_identifier session_id && valid_session_identifier message_id)
        invalid_session
    found ← ok_or (find_record session_id s.sessions) session_missing
    (context, target_id, expression) ← lesson message_id found
    let source =
        memory_source_fingerprint ext s.memory_provenance_key session_id found.round.id message_id
          target_id
    now ← now_or (env.now_ms 0)
    (memory, entry) ← map_err from_memory_error (
        remember lib (memory_policy s.config) (memory_context env 0 now) s.memory context target_id
          expression source)
    ok (record s { memory = memory }, entry)
