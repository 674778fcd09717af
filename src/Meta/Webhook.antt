-- ===== src/Meta/Webhook.antt =====
-- src/piki/integrations/meta/webhook.py: the checks of a request and `normalize_webhook`. pydantic's
-- reading of the JSON, HMAC-SHA-256 and `datetime.fromtimestamp(int(value))` are arguments.
use buenpick_piki.Base.{
  ℕ, String, Bool, false, not, ◌&&◌, Option, none, some, List, [], ◌∷◌, ◌++◌, ◌==◌, str_eq, truthy,
  truthy?, text_len, if◌then◌else◌,
}
use buenpick_piki.Base.Failure.{Result, ok, err, meta_webhook, other}
use buenpick_piki.Base.Decimal.{str_int}
use buenpick_piki.Base.Text.{remove_prefix, starts, is_ascii}
use buenpick_piki.Sql.{◌>>=◌}
use buenpick_piki.Domain.Messages.{InboundMessage, Channel, MessageKind, utc, validate_text_message}
use buenpick_piki.Domain.Delivery.{DeliveryStatus}
use buenpick_piki.Meta.Status.{MetaStatusUpdate, validate_error_shape}
use buenpick_piki.Meta.Payload.{
  MetaDelivery, MetaEntry, MetaImage, MetaInteractive, MetaMessage, MetaReply, MetaStatus,
  MetaStatusError, MetaValue, MetaWebhookEvents, sent, delivered, read, failed,
}

-- `hmac.compare_digest` of two texts, which have to be ASCII
abbrev pub compare_digest : String → String → Result Bool
compare_digest a b = if is_ascii a && is_ascii b then ok (str_eq a b) else err (other "TypeError")

-- `verify_challenge(mode=…, provided_token=…, expected_token=…)`
unfoldable pub verify_challenge : Option String → Option String → String → Result Bool
verify_challenge none provided expected = ok false
verify_challenge (some mode) none expected = ok false
verify_challenge (some mode) (some provided) expected =
    if not (str_eq mode "subscribe") then ok false else compare_digest provided expected

-- `verify_signature(raw_body, signature_header, app_secret)`, where `hexdigest` is HMAC-SHA-256
unfoldable pub verify_signature :
    (String → String → String) → String → Option String → String → Result Bool
verify_signature hexdigest body none secret = ok false
verify_signature hexdigest body (some header) secret =
    if not (starts "sha256=" header)
    then ok false
    else if not (text_len (remove_prefix "sha256=" header) == 64)
    then ok false
    else compare_digest (remove_prefix "sha256=" header) (hexdigest secret body)

-- what `datetime.fromtimestamp(int(value), tz=UTC)` gives: a time, a ValueError or an OSError, or the
-- OverflowError of a number that is too large for the platform
pub data TimeRead : Type 0 where
  at : ℕ → TimeRead
  unreadable overflows : TimeRead

-- `_timestamp`
abbrev pub timestamp_of : TimeRead → Result ℕ
timestamp_of (at t) = ok t
timestamp_of unreadable = err (meta_webhook "invalid Meta timestamp")
timestamp_of overflows = err (other "OverflowError")

abbrev pub Normal : Type 0
Normal = MessageKind × Option String × List (String × String)

abbrev base_metadata : MetaMessage → String → List (String × String)
base_metadata m phone = ("phone_number_id", phone) ∷ ("meta_message_type", m.kind) ∷ []

abbrev add_value : String → Option String → List (String × String) → List (String × String)
add_value key none rest = rest
add_value key (some v) rest = if truthy v then (key, v) ∷ rest else rest

abbrev image_metadata : MetaImage → List (String × String)
image_metadata i =
    ("media_id", i.id) ∷ add_value "mime_type" i.mime_type (add_value "media_sha256" i.sha256 [])

abbrev unsupported : MetaMessage → String → Normal
unsupported m phone = (MessageKind.unsupported, none, base_metadata m phone)

abbrev normal_text : MetaMessage → String → Option String → Normal
normal_text m phone none = unsupported m phone
normal_text m phone (some body) = (MessageKind.text, some body, base_metadata m phone)

abbrev normal_image : MetaMessage → String → Option MetaImage → Normal
normal_image m phone none = unsupported m phone
normal_image m phone (some i) =
    (MessageKind.image, i.caption, base_metadata m phone ++ image_metadata i)

abbrev reply_of : Option MetaReply → Option MetaReply → Option MetaReply
reply_of (some r) listed = some r
reply_of none listed = listed

abbrev normal_reply : MetaMessage → String → String → Option MetaReply → Normal
normal_reply m phone kind none = unsupported m phone
normal_reply m phone kind (some r) = (
  MessageKind.interactive,
  some r.title,
  base_metadata m phone ++ ("interaction_id", r.id) ∷ ("interaction_type", kind) ∷ [],
)

abbrev normal_interactive : MetaMessage → String → Option MetaInteractive → Normal
normal_interactive m phone none = unsupported m phone
normal_interactive m phone (some i) =
    normal_reply m phone i.kind (reply_of i.button_reply i.list_reply)

-- `_message_metadata(message, phone_number_id)`
unfoldable pub message_metadata : MetaMessage → String → Normal
message_metadata m phone =
    if str_eq m.kind "text"
    then normal_text m phone m.text
    else if str_eq m.kind "image"
    then normal_image m phone m.image
    else if str_eq m.kind "interactive"
    then normal_interactive m phone m.interactive
    else unsupported m phone

-- `except ValidationError`
abbrev pub or_invalid : {A : Type 0} → String → Result A → Result A
or_invalid what (ok a) = ok a
or_invalid what (err e) = err (meta_webhook what)

abbrev pub inbound_of : MetaMessage → Normal → ℕ → InboundMessage
inbound_of m (kind, text, metadata) received_at = record {
  message_id = m.id;
  channel = Channel.whatsapp;
  conversation_id = m.from_;
  sender_id = m.from_;
  kind = kind;
  text = text;
  received_at = utc received_at;
  metadata = metadata;
}

abbrev status_of : MetaDelivery → DeliveryStatus
status_of sent = DeliveryStatus.sent
status_of delivered = DeliveryStatus.delivered
status_of read = DeliveryStatus.read
status_of failed = DeliveryStatus.failed

abbrev or_title : MetaStatusError → Option String
or_title e = if truthy? e.message then e.message else e.title

abbrev error_message : List MetaStatusError → Option String
error_message [] = none
error_message (e ∷ _) = if truthy? e.details then e.details else or_title e

abbrev error_code : List MetaStatusError → Option String
error_code [] = none
error_code (e ∷ _) = some (str_int e.code)

abbrev pub update_of : MetaStatus → String → ℕ → MetaStatusUpdate
update_of s phone occurred_at = record {
  provider_message_id = s.id;
  phone_number_id = phone;
  recipient_id = s.recipient_id;
  status = status_of s.status;
  occurred_at = occurred_at;
  error_code = error_code s.errors;
  error_message = error_message s.errors;
}

module _ (read_time : String → TimeRead) where
  unfoldable pub normalize_message : String → MetaMessage → Result InboundMessage
  unfolding message_metadata validate_text_message
  normalize_message phone m = timestamp_of (read_time m.timestamp) >>= λ t.
      or_invalid "invalid normalized Meta message"
        (validate_text_message (inbound_of m (message_metadata m phone) t))

  unfoldable pub normalize_status : String → MetaStatus → Result MetaStatusUpdate
  unfolding validate_error_shape str_int
  normalize_status phone s = timestamp_of (read_time s.timestamp) >>= λ t.
      or_invalid "invalid normalized Meta status" (validate_error_shape (update_of s phone t))

  unfoldable pub normalize_messages : String → List MetaMessage → Result (List InboundMessage)
  unfolding normalize_message
  normalize_messages phone [] = ok []
  normalize_messages phone (m ∷ ms) =
      normalize_message phone m >>= λ m'. normalize_messages phone ms >>= λ ms'. ok (m' ∷ ms')

  unfoldable pub normalize_statuses : String → List MetaStatus → Result (List MetaStatusUpdate)
  unfolding normalize_status
  normalize_statuses phone [] = ok []
  normalize_statuses phone (s ∷ ss) =
      normalize_status phone s >>= λ s'. normalize_statuses phone ss >>= λ ss'. ok (s' ∷ ss')

  -- `expected is not None and value != expected`
  abbrev differs : Option String → String → Bool
  differs none value = false
  differs (some expected) value = not (str_eq value expected)

  module _ (expected_waba_id expected_phone_number_id : Option String) where
    unfoldable pub normalize_changes : List MetaValue → Result MetaWebhookEvents
    unfolding normalize_messages normalize_statuses
    normalize_changes [] = ok (record { messages = []; statuses = [] })
    normalize_changes (v ∷ vs) =
        if differs expected_phone_number_id v.metadata.phone_number_id
        then err (meta_webhook "unexpected Meta phone number ID")
        else normalize_messages v.metadata.phone_number_id v.messages >>= (λ ms.
          normalize_statuses v.metadata.phone_number_id v.statuses >>= λ ss.
          normalize_changes vs >>= λ rest.
          ok (record { messages = ms ++ rest.messages; statuses = ss ++ rest.statuses }))

    unfoldable pub normalize_entries : List MetaEntry → Result MetaWebhookEvents
    unfolding normalize_changes
    normalize_entries [] = ok (record { messages = []; statuses = [] })
    normalize_entries (e ∷ es) =
        if differs expected_waba_id e.id
        then err (meta_webhook "unexpected Meta WABA ID")
        else normalize_changes e.changes >>= (λ here. normalize_entries es >>= λ rest. ok (record {
          messages = here.messages ++ rest.messages;
          statuses = here.statuses ++ rest.statuses;
        }))

    -- `normalize_webhook(payload, …)`, on the entries of a payload that is valid
    unfoldable pub normalize_webhook : Option (List MetaEntry) → Result MetaWebhookEvents
    unfolding normalize_entries
    normalize_webhook none = err (meta_webhook "invalid Meta webhook payload")
    normalize_webhook (some entries) = normalize_entries entries
