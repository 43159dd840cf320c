-- ===== src/Service/Learning.antt =====
-- What the recognition memory learns through crates/semantic-engine-service/src/lib.rs.
use semantic_engine.Common.{ℕ, Text, some, ◌≡◌, arith, inl, inr, Option-cases}
use semantic_engine.Common.Results.{ok, Result-cases}
use semantic_engine.Core.Libraries.{Libraries}
use semantic_engine.Core.Types.{Decision, Decision-discrete, OperatorResolution}
use semantic_engine.MemoryStore.Types.{MemoryEntry}
use semantic_engine.MemoryStore.Operations.{remember}
use semantic_engine.Service.Types.{SessionRecord, SemanticEngineService}
use semantic_engine.Service.Config.{memory_policy, now_or}
use semantic_engine.Service.Externals.{Externals, Env}
use semantic_engine.Service.Fingerprints.{memory_source_fingerprint}
use semantic_engine.Service.Records.{find_record, find_delivery}
use semantic_engine.Service.Recognition.{memory_context}
use semantic_engine.Service.Memory.{
  last_resolution, text_of_delivery, lesson, remember_session_resolution,
}

-- The newest resolution of the message in the session accepts a target, and the session still has
-- the text of the message and names its context.
pub record Teaches {F : Type 0} (r : SessionRecord F) (message_id : Text)
    (context target expression : Text) : Type 0 where
  pub resolution : OperatorResolution
  pub newest : last_resolution message_id r.events ≡ some resolution
  pub accepted : resolution.final_decision ≡ Decision.accepted
  pub target_id : resolution.target_id ≡ some target
  pub context_id : r.context_package_sha256 ≡ some context
  pub text : text_of_delivery (find_delivery message_id r.deliveries) ≡ some expression

lesson-Teaches :
    {F : Type 0} (message_id : Text) (r : SessionRecord F) {context target expression : Text}
    → lesson message_id r ≡ ok (context, target, expression)
    → Teaches r message_id context target expression
unfolding lesson Decision-discrete
lesson-Teaches message_id r {context} {target} {expression} e =
    elim (Option-cases (last_resolution message_id r.events)) [
      | inl silent ↦ absurd (ground (arith, silent))
      | inr (resolution, newest) ↦ record {
        resolution = resolution;
        newest = newest;
        accepted = ground (arith, newest);
        target_id = ground (arith, newest);
        context_id = ground (arith, newest);
        text = ground (arith, newest);
      }
    ]

module _ (lib : Libraries) {A : Type 0} (ext : Externals lib.F64) where
  open lib use {F64}

  -- Only what an operator accepted is learned: what is remembered for a message of a session is
  -- the text of that message, for the target that the newest resolution of the message accepts, in
  -- the context of the session; nothing but the memory changes.
  pub remember_session_resolution-Teaches :
      (env : Env) (session_id message_id : Text) (s : SemanticEngineService F64 A)
      {t : SemanticEngineService F64 A} {entry : MemoryEntry}
      → remember_session_resolution lib ext env session_id message_id s ≡ ok (t, entry)
      → (r : SessionRecord F64) × (find_record session_id s.sessions ≡ some r)
        × ((context : Text) × (target : Text) × (expression : Text) × (now : ℕ) × Teaches r
              message_id context target expression
            × (remember lib
                  (memory_policy s.config)
                  (memory_context env 0 now)
                  s.memory
                  context
                  target
                  expression
                  (memory_source_fingerprint ext s.memory_provenance_key session_id r.round.id
                    message_id target)
                ≡ ok (t.memory, entry))
            × (t ≡ record s { memory = t.memory }))
  unfolding remember_session_resolution now_or
  remember_session_resolution-Teaches env session_id message_id s {t} {entry} e =
      elim (Option-cases (find_record session_id s.sessions)) [
        | inl gone ↦ absurd (ground (arith, gone))
        | inr (r, found) ↦ elim (Result-cases (lesson message_id r)) [
          | inr (x, refused) ↦ absurd (ground (arith, found, refused))
          | inl ((context, target, expression), given) ↦ elim (Option-cases (env.now_ms 0)) [
            | inl unknown ↦ absurd (ground (arith, found, given, unknown))
            | inr (now, read) ↦ (
              r,
              found,
              (
                context,
                target,
                expression,
                now,
                lesson-Teaches message_id r given,
                ground (arith, found, given, read),
                ground (arith, found, given, read),
              ),
            )
          ]
        ]
      ]
