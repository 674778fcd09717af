-- ===== src/Domain/Delivery.antt =====
-- src/piki/domain/contracts.py: delivery requests and delivery results.
use buenpick_piki.Base.{
  ℕ, String, Bool, true, false, not, ◌&&◌, ◌||◌, Option, List, [], ◌∷◌, truthy?, is_some, fits,
  fits?, length, leb, if◌then◌else◌,
}
use buenpick_piki.Base.Failure.{Result, ok, err, value_error}

pub data DeliveryKind : Type 0 where
  text image interactive template : DeliveryKind

pub data CustomerServiceWindow : Type 0 where
  open_window closed_window unknown_window : CustomerServiceWindow

pub record InteractiveOption : Type 0 where
  pub id : String
  pub title : String

pub record DeliveryRequest : Type 0 where
  pub idempotency_key : String
  pub conversation_id : String
  pub kind : DeliveryKind
  pub text : Option String
  pub media_url : Option String
  pub interactive_options : List InteractiveOption
  pub template_name : Option String
  pub template_language : Option String
  pub template_parameters : List String
  pub customer_service_window : CustomerServiceWindow
  pub trace_id : String

-- the truth value of a tuple
abbrev pub nonempty {ℓ} : {A : Type ℓ} → List A → Bool
nonempty [] = false
nonempty (_ ∷ _) = true

option_fields : List InteractiveOption → Bool
option_fields [] = true
option_fields (o ∷ os) = fits 1 256 o.id && fits 1 20 o.title && option_fields os

request_fields : DeliveryRequest → Bool
unfolding option_fields
request_fields r =
    fits 1 255 r.idempotency_key
    && fits 1 255 r.conversation_id
    && fits? 0 4096 r.text
    && leb (length r.interactive_options) 3
    && option_fields r.interactive_options
    && fits? 1 512 r.template_name
    && fits? 2 35 r.template_language
    && leb (length r.template_parameters) 10
    && fits 1 128 r.trace_id

-- what each kind of delivery requires, and the fields that it may not carry
content_of_kind : DeliveryKind → DeliveryRequest → Result DeliveryRequest
content_of_kind text r =
    if not (truthy? r.text) then err (value_error "text delivery requires text") else ok r
content_of_kind image r =
    if not (is_some r.media_url)
    then err (value_error "image delivery requires media_url")
    else ok r
content_of_kind interactive r =
    if not (truthy? r.text) || not (nonempty r.interactive_options)
    then err (value_error "interactive delivery requires text and options")
    else ok r
content_of_kind template r =
    if not (is_some r.template_name) || not (is_some r.template_language)
    then err (value_error "template delivery requires name and language")
    else ok r

abbrev pub is_interactive : DeliveryKind → Bool
is_interactive interactive = true
is_interactive _ = false

abbrev pub is_template : DeliveryKind → Bool
is_template template = true
is_template _ = false

foreign_fields : DeliveryRequest → Result DeliveryRequest
foreign_fields r =
    if not (is_interactive r.kind) && nonempty r.interactive_options
    then err (value_error "interactive options require interactive delivery")
    else if not (is_template r.kind)
        && (truthy? r.template_name
            || truthy? r.template_language
            || nonempty r.template_parameters)
    then err (value_error "template fields require template delivery")
    else ok r

abbrev and_then : Result DeliveryRequest → Result DeliveryRequest → Result DeliveryRequest
and_then (ok _) next = next
and_then (err e) next = err e

unfoldable pub validate_content : DeliveryRequest → Result DeliveryRequest
unfolding request_fields content_of_kind foreign_fields
validate_content r =
    if not (request_fields r)
    then err (value_error "field bounds")
    else and_then (content_of_kind r.kind r) (foreign_fields r)

pub data DeliveryStatus : Type 0 where
  unknown accepted sent delivered read failed : DeliveryStatus

-- a value of the `metadata` dictionary of a result
pub data MetadataValue : Type 0 where
  flag : Bool → MetadataValue
  number : ℕ → MetadataValue
  words : String → MetadataValue

pub record DeliveryResult : Type 0 where
  pub status : DeliveryStatus
  pub provider_message_id : Option String
  pub error_code : Option String
  pub error_message : Option String
  pub trace_id : String
  pub metadata : List (String × MetadataValue)

-- `self.status in error_statuses`; the other statuses are the provider's
abbrev pub is_error_status : DeliveryStatus → Bool
is_error_status failed = true
is_error_status unknown = true
is_error_status _ = false

pub result_fields : DeliveryResult → Bool
result_fields r =
    fits? 0 255 r.provider_message_id
    && fits? 0 100 r.error_code
    && fits? 0 500 r.error_message
    && fits 1 128 r.trace_id

unfoldable pub validate_delivery_truth : DeliveryResult → Result DeliveryResult
unfolding result_fields
validate_delivery_truth r =
    if not (result_fields r)
    then err (value_error "field bounds")
    else if is_error_status r.status && not (truthy? r.error_code)
    then err (value_error "failed or unknown delivery requires an error code")
    else if not (is_error_status r.status) && is_some r.error_code
    then err (value_error "successful delivery status cannot contain an error code")
    else if not (is_error_status r.status) && not (truthy? r.provider_message_id)
    then err (value_error "provider delivery status requires a message ID")
    else ok r
