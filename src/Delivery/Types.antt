-- ===== src/Delivery/Types.antt =====
-- The types of src/piki/delivery/service.py.
use buenpick_piki.Base.{ℕ, String, Bool, true, false, Option}
use buenpick_piki.Domain.Delivery.{DeliveryStatus}
use buenpick_piki.Db.Models.{DeliveryAttemptState, DeliveryAttemptRecord}

pub record DeliveryAttemptSnapshot : Type 0 where
  pub id : ℕ
  pub state : DeliveryAttemptState
  pub provider_message_id : Option String
  pub error_code : Option String
  pub error_message : Option String
  pub trace_id : String

pub record DeliveryClaim : Type 0 where
  pub created : Bool
  pub attempt : DeliveryAttemptSnapshot

pub data CallbackApplyStatus : Type 0 where
  applied duplicate ignored_regression missing_attempt : CallbackApplyStatus

-- `DeliveryAttemptState(status.value)`
abbrev pub attempt_state : DeliveryStatus → DeliveryAttemptState
attempt_state DeliveryStatus.unknown = DeliveryAttemptState.unknown
attempt_state DeliveryStatus.accepted = DeliveryAttemptState.accepted
attempt_state DeliveryStatus.sent = DeliveryAttemptState.sent
attempt_state DeliveryStatus.delivered = DeliveryAttemptState.delivered
attempt_state DeliveryStatus.read = DeliveryAttemptState.read
attempt_state DeliveryStatus.failed = DeliveryAttemptState.failed

abbrev pub is_pending : DeliveryAttemptState → Bool
is_pending DeliveryAttemptState.pending = true
is_pending _ = false

-- `PostgresDeliveryStore._snapshot`
unfoldable pub snapshot : DeliveryAttemptRecord → DeliveryAttemptSnapshot
snapshot r = record {
  id = r.id;
  state = r.status;
  provider_message_id = r.provider_message_id;
  error_code = r.error_code;
  error_message = r.error_message;
  trace_id = r.trace_id;
}
