-- ===== src/Tests/Hooks.antt =====
-- Requests of Meta, and a delivery to it, src/piki/integrations/meta/webhook.py and delivery.py.
use Prim.Native.String.{◌++◌ as append}
use buenpick_piki.Base.{◌≡◌, ◌↔◌, refl, fits, String, true, Option, none, some, List, [], ◌∷◌}
use buenpick_piki.Base.Failure.{ok}
use buenpick_piki.Base.Text.{is_ascii, strip}
use buenpick_piki.Domain.Messages.{
  InboundMessage, whatsapp, utc, MessageKind, validate_text_message,
}
use buenpick_piki.Domain.Delivery.{
  DeliveryRequest, DeliveryResult, closed_window, validate_delivery_truth,
}
use buenpick_piki.BuenPick.Models.{Json}
use buenpick_piki.Meta.Payload.{MetaEntry, MetaMessage, MetaWebhookEvents}
use buenpick_piki.Meta.Webhook.{
  verify_signature, TimeRead, at, normalize_webhook, normalize_message, message_metadata,
}
use buenpick_piki.Meta.Signed.{verify_signature_iff}
use buenpick_piki.Meta.Bodies.{build_body}
use buenpick_piki.Meta.Adapter.{Posted, timed_out, send, posted_result}
use buenpick_piki.Meta.Contract.{Contract, send-Contract}
use buenpick_piki.Tests.Samples.{request}

abbrev pub digest : String → String → String
digest secret body = "00112233445566778899aabbccddeeff00112233445566778899aabbccddeeff"

pub ascii_digest : is_ascii (digest "secret" "body") ≡ true
ascii_digest = refl

verify_signature_iff_example :
    (verify_signature digest "body" (some "sha256=00") "secret" ≡ ok true) ↔ (
      ◌≡◌ {A = Option String} (some "sha256=00") (some (append "sha256=" (digest "secret" "body"))))
verify_signature_iff_example =
    verify_signature_iff digest "body" "secret" refl ascii_digest (some "sha256=00")

abbrev no_json : String → Option Json
no_json content = none

abbrev no_words : Json → String
no_words value = ""

abbrev times_out : Json → Posted
times_out value = timed_out

abbrev uncertain : DeliveryResult
uncertain = posted_result no_json no_words request timed_out

sends : (send no_json no_words times_out request).0 ≡ ok uncertain
unfolding send validate_delivery_truth posted_result build_body fits
sends = refl

send-Contract_example :
    Contract no_json no_words times_out request uncertain
      (send no_json no_words times_out request).1
send-Contract_example = send-Contract no_json no_words times_out request uncertain sends

abbrev late_request : DeliveryRequest
late_request = record request { customer_service_window = closed_window }

late_is_not_posted : (send no_json no_words times_out late_request).1 ≡ []
unfolding send
late_is_not_posted = refl

abbrev meta_message : MetaMessage
meta_message = record {
  id = "wamid.1";
  from_ = "549110000";
  timestamp = "20";
  kind = "text";
  text = some "hola";
  image = none;
  interactive = none;
}

abbrev pub entries : List MetaEntry
entries =
    record {
      id = "waba";
      changes =
          record {
            metadata = record { display_phone_number = "54911"; phone_number_id = "100" };
            messages = meta_message ∷ [];
            statuses = [];
          }
          ∷ [];
    }
    ∷ []

abbrev pub read_time : String → TimeRead
read_time text = at 20

abbrev normal : InboundMessage
normal = record {
  message_id = "wamid.1";
  channel = whatsapp;
  conversation_id = "549110000";
  sender_id = "549110000";
  kind = MessageKind.text;
  text = some "hola";
  received_at = utc 20;
  metadata = ("phone_number_id", "100") ∷ ("meta_message_type", "text") ∷ [];
}

abbrev events : MetaWebhookEvents
events = record { messages = normal ∷ []; statuses = [] }

normalizes : normalize_webhook read_time (some "waba") (some "100") (some entries) ≡ ok events
unfolding normalize_webhook normalize_message message_metadata validate_text_message fits strip
normalizes = refl
