-- ===== src/Meta/Adapter.antt =====
-- `MetaDeliveryAdapter` of src/piki/integrations/meta/delivery.py. What the POST meets, `response.json()`
-- and the text of a JSON value are arguments.
use Prim.Native.String.{◌++◌ as append}
use buenpick_piki.Base.{
  ℕ, String, Bool, not, ◌&&◌, Option, none, some, List, [], ◌∷◌, leb, str_eq, truthy, if◌then◌else◌,
}
use buenpick_piki.Base.Failure.{Result, ok, err, value_error}
use buenpick_piki.Base.Decimal.{str}
use buenpick_piki.Base.Text.{strip}
use buenpick_piki.Domain.Delivery.{
  DeliveryRequest, DeliveryResult, accepted, unknown, failed, words, number, is_template,
  validate_delivery_truth,
}
use buenpick_piki.BuenPick.Models as Models
use buenpick_piki.BuenPick.Models.{
  Json, null, boolean, array, object, JsonItems, no_items, item, JsonFields, no_fields, field,
}
use buenpick_piki.Meta.Bodies.{
  Built, body, refused, plain_result, build_body, window_failure, is_open,
}

-- what one POST meets: a timeout, another error of the request, or a response
pub data Posted : Type 0 where
  timed_out : Posted
  request_error : Posted
  response : ℕ → String → Posted

-- the constructor's checks
unfoldable pub validate_configuration : String → String → String → Result (Unit {0})
validate_configuration graph_api_version phone_number_id access_token =
    if truthy (strip graph_api_version)
      && truthy (strip phone_number_id)
      && truthy (strip access_token)
    then ok tt
    else err (value_error "Meta delivery configuration is incomplete")

-- `payload.get(key)` of an object; a key that comes twice has its last value
unfoldable pub get_field : String → JsonFields → Option Json
get_field key no_fields = none
get_field key (field k v rest) =
    let later = get_field key rest in
    elim later [ some w ↦ some w | none ↦ if str_eq k key then some v else none ]

abbrev field_of : String → Json → Option Json
field_of key (object fields) = get_field key fields
field_of key _ = none

abbrev is_given : Option Json → Option Json
is_given (some null) = none
is_given o = o

-- the code of `payload["error"]`, where there is one
abbrev meta_code : Option Json → Option Json
meta_code none = none
meta_code (some payload) = elim (field_of "error" payload) [
  | none ↦ none
  | some meta_error ↦ is_given (field_of "code" meta_error)
]

module _ (json : String → Option Json) (show : Json → String) where
  abbrev rejected_code : ℕ → Option Json → String
  rejected_code status none = append "META_HTTP_" (str status)
  rejected_code status (some code) = append "META_" (show code)

  -- `_rejected_result(response, trace_id)`
  unfoldable pub rejected_result : ℕ → String → DeliveryRequest → DeliveryResult
  unfolding str get_field
  rejected_result status content request =
      plain_result failed (rejected_code status (meta_code (json content)))
        "Meta rechazó el mensaje." (("http_status", number status) ∷ []) request

  abbrev words_of : Option Json → Option String
  words_of (some (Models.words s)) = some s
  words_of _ = none

  abbrev and_also : Option String → Option (List String) → Option (List String)
  and_also (some s) (some ss) = some (s ∷ ss)
  and_also _ _ = none

  ids_of : JsonItems → Option (List String)
  ids_of no_items = some []
  ids_of (item v rest) = and_also (words_of (field_of "id" v)) (ids_of rest)

  abbrev items_of : Option Json → Option (List String)
  items_of (some (array items)) = ids_of items
  items_of _ = none

  abbrev first_of : Option (List String) → Option String
  first_of (some (id ∷ _)) = if truthy (strip id) then some id else none
  first_of _ = none

  abbrev both_of : Option String → Option String → Option (String × String)
  both_of (some product) (some id) = some (product, id)
  both_of _ _ = none

  abbrev read_payload : Option Json → Option (String × String)
  read_payload none = none
  read_payload (some payload) =
      both_of (words_of (field_of "messaging_product" payload))
        (first_of (items_of (field_of "messages" payload)))

  -- `MetaSendResponse.model_validate(response.json())` and the first identifier, if it is not blank
  unfoldable pub read_response : String → Option (String × String)
  unfolding ids_of get_field
  read_response content = read_payload (json content)

  abbrev pub success_result : DeliveryRequest → Option (String × String) → DeliveryResult
  success_result request none =
      plain_result unknown "META_INVALID_SUCCESS_RESPONSE"
        "Meta respondió sin un identificador de mensaje válido." [] request
  success_result request (some (product, id)) = record {
    status = accepted;
    provider_message_id = some id;
    error_code = none;
    error_message = none;
    trace_id = request.trace_id;
    metadata = ("messaging_product", words product) ∷ [];
  }

  abbrev is_error : ℕ → Bool
  is_error status = leb 400 status && leb status 599

  -- the result of a request that was posted
  unfoldable pub posted_result : DeliveryRequest → Posted → DeliveryResult
  unfolding rejected_result read_response
  posted_result request timed_out =
      plain_result unknown "META_TIMEOUT_UNCERTAIN"
        "Meta no confirmó si aceptó el mensaje antes del timeout." [] request
  posted_result request request_error =
      plain_result unknown "META_NETWORK_UNCERTAIN"
        "No se pudo confirmar el resultado del envío con Meta." [] request
  posted_result request (response status content) =
      if is_error status
      then rejected_result status content request
      else success_result request (read_response content)

  module _ (post : Json → Posted) where
    abbrev pub send_built : DeliveryRequest → Built → Result DeliveryResult × List Json
    send_built request (refused result) = (validate_delivery_truth result, [])
    send_built request (body content) =
        (validate_delivery_truth (posted_result request (post content)), content ∷ [])

    -- `send(request)`: the result, and the bodies that were posted
    unfoldable pub send : DeliveryRequest → Result DeliveryResult × List Json
    unfolding window_failure build_body posted_result validate_delivery_truth
    send request =
        if not (is_template request.kind) && not (is_open request.customer_service_window)
        then (validate_delivery_truth (window_failure request), [])
        else send_built request (build_body request)
