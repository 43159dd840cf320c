-- ===== src/Service/RestoredRows.antt =====
-- The rows that crates/semantic-engine-service/src/lib.rs restores the events and the deliveries from.
use semantic_engine.Common.{
  Text, true, none, List, [], ◌∷◌, not, ◌||◌, ◌==◌, ◌=t◌, ◌≡◌, sym, subst, arith, Pairwise,
}
use semantic_engine.Common.Results.{
  ok, map_err, map_err-eq-ok, >>=-eq-ok, >>-eq-ok, guard-eq-ok, ok-injective,
}
use semantic_engine.SessionStore.Types.{StoredEvent, StoredDelivery}
use semantic_engine.Service.Types.{session_store, SessionValidation, SessionEvent, SessionDelivery}
use semantic_engine.Service.Config.{session_contract_version}
use semantic_engine.Service.Restore.{
  Decoders, restore_event, restore_events, restore_delivery, restore_deliveries,
}

-- What the JSON of an event row was read as, and the event that the session then has
abbrev pub IsEventOf : {F : Type 0} → Decoders F → Text → StoredEvent → SessionEvent F → Type 0
IsEventOf {F = F} codec id item event =
    (read : SessionEvent F) × (codec.decode_event item.payload_json ≡ ok read)
    × (read.session_id ≡ id)
    × (read.sequence ≡ item.sequence)
    × (read.occurred_at_ms ≡ item.occurred_at_ms)
    × ((read.contract_version == 1 || read.contract_version == session_contract_version) ≡ true)
    × (event ≡ record read { contract_version = session_contract_version })

abbrev pub IsDeliveryOf : {F : Type 0} → Decoders F → StoredDelivery → SessionDelivery F → Type 0
IsDeliveryOf {F = F} codec item delivery =
    (read : SessionValidation F) × (codec.decode_validation item.validation_json ≡ ok read)
    × (read.message_id ≡ item.message_id)
    × (delivery ≡ record {
      request_fingerprint = item.request_fingerprint;
      validation = read;
      resolution_emitted = item.resolution_emitted;
      submission_text = none;
    })

module _ {F : Type 0} (codec : Decoders F) where
  -- The identity that `restore_event` requires
  event_identity :
      (id : Text) (item : StoredEvent) (event : SessionEvent F)
      → not (
          not (event.session_id =t id)
          || not (event.sequence == item.sequence)
          || not (event.occurred_at_ms == item.occurred_at_ms)
          || not
              (event.contract_version == 1 || event.contract_version == session_contract_version))
        ≡ true
      → (event.session_id ≡ id)
        × (event.sequence ≡ item.sequence)
        × (event.occurred_at_ms ≡ item.occurred_at_ms)
        × ((event.contract_version == 1 || event.contract_version == session_contract_version)
            ≡ true)
  event_identity id item event e = ground (arith, e)

  pub restore_events-IsEventOf :
      (id : Text) (items : List StoredEvent) {events : List (SessionEvent F)}
      → restore_events codec id items ≡ ok events
      → Pairwise (IsEventOf codec id) items events
  unfolding restore_events restore_event
  restore_events-IsEventOf id [] {events} e =
      subst (Pairwise (IsEventOf codec id) []) (ok-injective [] events e) tt
  restore_events-IsEventOf id (item ∷ items) {events} e =
      let (event, restored, e1) = >>=-eq-ok (restore_event codec id item) _ e in
      let (rest, are_restored, e2) = >>=-eq-ok (restore_events codec id items) _ e1 in
      let (read, is_read, e3) =
        >>=-eq-ok (map_err session_store (codec.decode_event item.payload_json)) _ restored in
      let (same, e4) = >>-eq-ok _ _ e3 in
      let (same_id, same_sequence, same_time, known) =
        event_identity id item read (guard-eq-ok _ _ same) in
      subst (Pairwise (IsEventOf codec id) (item ∷ items)) (ok-injective (event ∷ rest) events e2) (
        (
          read,
          map_err-eq-ok _ _ is_read,
          same_id,
          same_sequence,
          same_time,
          known,
          sym (ok-injective _ event e4),
        ),
        restore_events-IsEventOf id items are_restored,
      )

  pub restore_deliveries-IsDeliveryOf :
      (items : List StoredDelivery) {deliveries : List (SessionDelivery F)}
      → restore_deliveries codec items ≡ ok deliveries
      → Pairwise (IsDeliveryOf codec) items deliveries
  unfolding restore_deliveries restore_delivery
  restore_deliveries-IsDeliveryOf [] {deliveries} e =
      subst (Pairwise (IsDeliveryOf codec) []) (ok-injective [] deliveries e) tt
  restore_deliveries-IsDeliveryOf (item ∷ items) {deliveries} e =
      let (delivery, restored, e1) = >>=-eq-ok (restore_delivery codec item) _ e in
      let (rest, are_restored, e2) = >>=-eq-ok (restore_deliveries codec items) _ e1 in
      let (read, is_read, e3) =
        >>=-eq-ok (map_err session_store (codec.decode_validation item.validation_json)) _
          restored in
      let (same, e4) = >>-eq-ok _ _ e3 in
      let same_message : (read.message_id =t item.message_id) ≡ true = guard-eq-ok _ _ same in
      subst (Pairwise (IsDeliveryOf codec) (item ∷ items))
        (ok-injective (delivery ∷ rest) deliveries e2)
        (
          (
            read,
            map_err-eq-ok _ _ is_read,
            ground (arith, same_message),
            sym (ok-injective _ delivery e4),
          ),
          restore_deliveries-IsDeliveryOf items are_restored,
        )
