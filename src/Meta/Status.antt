-- ===== src/Meta/Status.antt =====
-- `MetaStatusUpdate` of src/piki/integrations/meta/webhook.py.
use buenpick_piki.Base.{
  ℕ, String, Bool, true, false, not, ◌&&◌, Option, is_some, fits, fits?, if◌then◌else◌,
}
use buenpick_piki.Base.Failure.{Result, ok, err, value_error}
use buenpick_piki.Domain.Delivery.{DeliveryStatus}

pub record MetaStatusUpdate : Type 0 where
  pub provider_message_id : String
  pub phone_number_id : String
  pub recipient_id : String
  pub status : DeliveryStatus
  pub occurred_at : ℕ
  pub error_code : Option String
  pub error_message : Option String

abbrev pub is_failed : DeliveryStatus → Bool
is_failed DeliveryStatus.failed = true
is_failed _ = false

status_fields : MetaStatusUpdate → Bool
status_fields s =
    fits 1 255 s.provider_message_id
    && fits 1 255 s.phone_number_id
    && fits 1 255 s.recipient_id
    && fits? 0 100 s.error_code
    && fits? 0 500 s.error_message

unfoldable pub validate_error_shape : MetaStatusUpdate → Result MetaStatusUpdate
unfolding status_fields
validate_error_shape s =
    if not (status_fields s)
    then err (value_error "field bounds")
    else if is_failed s.status && not (is_some s.error_code)
    then err (value_error "failed Meta status requires an error code")
    else if not (is_failed s.status) && is_some s.error_code
    then err (value_error "non-failed Meta status cannot contain an error code")
    else ok s
