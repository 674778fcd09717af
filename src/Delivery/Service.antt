-- ===== src/Delivery/Service.antt =====
-- `IdempotentDeliveryService` of src/piki/delivery/service.py. The adapter's call is an argument:
-- what `send` of the adapter returns or raises for a request.
use buenpick_piki.Base.{ℕ, String, true, none, some, List, [], ◌∷◌, ◌++◌, if◌then◌else◌}
use buenpick_piki.Base.Failure.{Result, ok, err}
use buenpick_piki.Domain.Delivery.{
  DeliveryRequest, DeliveryResult, DeliveryStatus, MetadataValue, flag, is_error_status,
  validate_delivery_truth,
}
use buenpick_piki.Db.Models.{Db, DeliveryAttemptState}
use buenpick_piki.Observability.{
  LifecycleRecord, delivery_attempted, delivery_failed, lifecycle_record, EventOutcome,
}
use buenpick_piki.Delivery.Types.{DeliveryAttemptSnapshot, DeliveryClaim}
use buenpick_piki.Delivery.Store.{claim, finalize}

abbrev pub replay_metadata : List (String × MetadataValue)
replay_metadata = ("idempotent_replay", flag true) ∷ []

-- `DeliveryResult(status=DeliveryStatus(state), …)` from what is stored
abbrev pub stored_result : DeliveryStatus → DeliveryAttemptSnapshot → DeliveryResult
stored_result status attempt = record {
  status = status;
  provider_message_id = attempt.provider_message_id;
  error_code = attempt.error_code;
  error_message = attempt.error_message;
  trace_id = attempt.trace_id;
  metadata = replay_metadata;
}

abbrev pub in_progress : DeliveryAttemptSnapshot → DeliveryResult
in_progress attempt = record {
  status = DeliveryStatus.unknown;
  provider_message_id = none;
  error_code = some "DELIVERY_ALREADY_IN_PROGRESS";
  error_message = some "Ya existe un intento de entrega en curso.";
  trace_id = attempt.trace_id;
  metadata = replay_metadata;
}

abbrev pub existing : DeliveryAttemptState → DeliveryAttemptSnapshot → DeliveryResult
existing DeliveryAttemptState.pending a = in_progress a
existing DeliveryAttemptState.unknown a = stored_result DeliveryStatus.unknown a
existing DeliveryAttemptState.accepted a = stored_result DeliveryStatus.accepted a
existing DeliveryAttemptState.sent a = stored_result DeliveryStatus.sent a
existing DeliveryAttemptState.delivered a = stored_result DeliveryStatus.delivered a
existing DeliveryAttemptState.read a = stored_result DeliveryStatus.read a
existing DeliveryAttemptState.failed a = stored_result DeliveryStatus.failed a

-- `_existing_result(attempt)`, which raises where the stored fields make no valid result
unfoldable pub existing_result : DeliveryAttemptSnapshot → Result DeliveryResult
unfolding validate_delivery_truth
existing_result attempt = validate_delivery_truth (existing attempt.state attempt)

-- `_emit_attempt(result, started_at)`, whose records are in bounds: a DeliveryResult has the same bounds
-- on its trace and its error code
unfoldable pub emit_attempt : ℕ → ℕ → DeliveryResult → List LifecycleRecord
emit_attempt now started_at result =
    if is_error_status result.status
    then lifecycle_record now delivery_attempted result.trace_id "meta_delivery" EventOutcome.failed
        (some started_at) result.error_code none none
      ∷ lifecycle_record now delivery_failed result.trace_id "meta_delivery" EventOutcome.failed
          none result.error_code none none
      ∷ []
    else lifecycle_record now delivery_attempted result.trace_id "meta_delivery"
        EventOutcome.succeeded (some started_at) result.error_code none none
      ∷ []

-- The world of `send`: the tables, the requests handed to the adapter so far, oldest first, and
-- the records emitted.
pub record World : Type 0 where
  pub db : Db
  pub adapter_calls : List DeliveryRequest
  pub emitted : List LifecycleRecord

-- the fresh identifiers and the clock readings that one call of `send` takes
pub record Readings : Type 0 where
  pub attempt_id : ℕ
  pub event_id : ℕ
  pub started_at : ℕ
  pub now : ℕ

abbrev Reply : Type 0
Reply = Result DeliveryResult × World

abbrev pub replied : Readings → World → Result DeliveryResult → Result DeliveryResult × World
replied t w (ok result) =
    (ok result, record w { emitted = w.emitted ++ emit_attempt t.now t.started_at result })
replied t w (err e) = (err e, w)

abbrev pub after_finalize :
    Readings → World → DeliveryResult → Result (Unit {0}) × Db → Result DeliveryResult × World
after_finalize t w result (ok _, db) = replied t (record w { db = db }) (ok result)
after_finalize t w result (err e, db) = (err e, record w { db = db })

abbrev pub after_adapter :
    Readings → World → ℕ → Result DeliveryResult → Result DeliveryResult × World
after_adapter t w attempt_id (err e) = (err e, w)
after_adapter t w attempt_id (ok result) =
    after_finalize t w result (finalize t.event_id t.now attempt_id result w.db)

abbrev pub after_claim :
    (DeliveryRequest → Result DeliveryResult)
    → Readings
    → DeliveryRequest
    → World
    → Result DeliveryClaim × Db
    → Result DeliveryResult × World
after_claim adapter t request w (err e, db) = (err e, record w { db = db })
after_claim adapter t request w (ok c, db) =
    if c.created
    then after_adapter t (record w { db = db; adapter_calls = w.adapter_calls ++ request ∷ [] })
        c.attempt.id (adapter request)
    else replied t (record w { db = db }) (existing_result c.attempt)

-- `send(conversation_id, request)`
unfoldable pub send :
    (DeliveryRequest → Result DeliveryResult)
    → Readings
    → ℕ
    → DeliveryRequest
    → World
    → Result DeliveryResult × World
send adapter t conversation_id request w =
    after_claim adapter t request w (claim t.attempt_id conversation_id t.now request w.db)
