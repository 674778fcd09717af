-- ===== src/Meta/Bodies.antt =====
-- The bodies that `MetaDeliveryAdapter` of src/piki/integrations/meta/delivery.py posts for each kind of
-- delivery, and the deliveries that it refuses before it posts.
use buenpick_piki.Base.{
  String, Bool, true, false, Option, none, some, List, [], ◌∷◌, ltb, truthy, text_len,
  if◌then◌else◌,
}
use buenpick_piki.Domain.Delivery.{
  DeliveryKind, CustomerServiceWindow, open_window, closed_window, InteractiveOption,
  DeliveryRequest, DeliveryResult, DeliveryStatus, failed, MetadataValue,
}
use buenpick_piki.BuenPick.Models as Models
use buenpick_piki.BuenPick.Models.{
  Json, null, boolean, array, object, JsonItems, no_items, item, JsonFields, no_fields, field,
}

abbrev pub is_open : CustomerServiceWindow → Bool
is_open open_window = true
is_open _ = false

abbrev pub plain_result :
    DeliveryStatus
    → String
    → String
    → List (String × MetadataValue)
    → DeliveryRequest
    → DeliveryResult
plain_result status code message metadata request = record {
  status = status;
  provider_message_id = none;
  error_code = some code;
  error_message = some message;
  trace_id = request.trace_id;
  metadata = metadata;
}

-- `_local_failure(request, code)`
abbrev pub local_failure : DeliveryRequest → String → DeliveryResult
local_failure request code =
    plain_result failed code "El mensaje no cumple el contrato de entrega de Meta." [] request

-- `_window_failure(request)`
abbrev window_failed : CustomerServiceWindow → DeliveryRequest → DeliveryResult
window_failed closed_window request =
    plain_result failed "META_TEMPLATE_REQUIRED"
      "La ventana de atención está cerrada; se requiere un template aprobado." [] request
window_failed _ request =
    plain_result failed "META_WINDOW_UNCONFIRMED"
      "No se pudo confirmar la ventana de atención para el envío libre." [] request

unfoldable pub window_failure : DeliveryRequest → DeliveryResult
window_failure request = window_failed request.customer_service_window request

abbrev text_value : Option String → Json
text_value none = null
text_value (some s) = Models.words s

abbrev pair : String → Json → JsonFields → JsonFields
pair key value rest = field key value rest

abbrev one_field : String → Json → Json
one_field key value = object (field key value no_fields)

abbrev base_fields : DeliveryRequest → JsonFields → Json
base_fields request rest = object (
    field "messaging_product" (Models.words "whatsapp") (
      field "recipient_type" (Models.words "individual")
        (field "to" (Models.words request.conversation_id) rest)))

abbrev typed : String → Json → JsonFields
typed kind content = field "type" (Models.words kind) (field kind content no_fields)

abbrev caption_field : Option String → JsonFields
caption_field none = no_fields
caption_field (some s) = if truthy s then field "caption" (Models.words s) no_fields else no_fields

-- the replies to choose from
unfoldable pub buttons_of : List InteractiveOption → JsonItems
buttons_of [] = no_items
buttons_of (o ∷ os) =
    item
      (object (
        field "type" (Models.words "reply") (
          field "reply"
            (object
              (field "id" (Models.words o.id) (field "title" (Models.words o.title) no_fields)))
            no_fields)))
      (buttons_of os)

unfoldable pub parameters_of : List String → JsonItems
parameters_of [] = no_items
parameters_of (s ∷ ss) =
    item (object (field "type" (Models.words "text") (field "text" (Models.words s) no_fields)))
      (parameters_of ss)

abbrev components_field : List String → JsonFields
components_field [] = no_fields
components_field (s ∷ ss) =
    field "components"
      (array (
        item
          (object (
            field "type" (Models.words "body")
              (field "parameters" (array (parameters_of (s ∷ ss))) no_fields)))
          no_items))
      no_fields

abbrev url_value : Option String → Json
url_value none = Models.words "None"
url_value (some url) = Models.words url

abbrev too_long : Option String → Bool
too_long none = false
too_long (some s) = ltb 1024 (text_len s)

-- a body, or the result of a request that cannot be sent
pub data Built : Type 0 where
  body : Json → Built
  refused : DeliveryResult → Built

abbrev pub built_kind : DeliveryKind → DeliveryRequest → Built
built_kind DeliveryKind.text r = body (
    base_fields r (
      typed "text" (
        object (field "preview_url" (boolean false) (field "body" (text_value r.text) no_fields)))))
built_kind DeliveryKind.image r =
    if too_long r.text
    then refused (local_failure r "META_IMAGE_CAPTION_TOO_LONG")
    else body (
        base_fields r
          (typed "image" (object (field "link" (url_value r.media_url) (caption_field r.text)))))
built_kind DeliveryKind.interactive r = body (
    base_fields r (
      typed "interactive" (
        object (
          field "type" (Models.words "button") (
            field "body" (one_field "text" (text_value r.text)) (
              field "action" (one_field "buttons" (array (buttons_of r.interactive_options)))
                no_fields))))))
built_kind DeliveryKind.template r = body (
    base_fields r (
      typed "template" (
        object (
          field "name" (text_value r.template_name) (
            field "language" (one_field "code" (text_value r.template_language))
              (components_field r.template_parameters))))))

-- `_build_body(request)`
unfoldable pub build_body : DeliveryRequest → Built
unfolding buttons_of parameters_of
build_body r = built_kind r.kind r
