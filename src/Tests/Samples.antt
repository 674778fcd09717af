-- ===== src/Tests/Samples.antt =====
-- Sample rows, requests and callbacks.
use buenpick_piki.Base.{none, some, [], ◌∷◌}
use buenpick_piki.Domain.Messages.{whatsapp, MessageKind, InboundMessage, utc}
use buenpick_piki.Domain.Delivery.{
  DeliveryKind, DeliveryRequest, DeliveryResult, DeliveryStatus, open_window,
}
use buenpick_piki.Db.Models.{
  Db, ConversationRecord, MessageRecord, DeliveryAttemptRecord, Direction, ProcessingStatus,
  piki_active, accepted,
}
use buenpick_piki.Meta.Status.{MetaStatusUpdate}

abbrev pub conversation : ConversationRecord
conversation = record {
  id = 1;
  channel = whatsapp;
  channel_account_id = "account";
  external_conversation_id = "549110000";
  status = piki_active;
  created_at = 5;
  updated_at = 5;
}

abbrev pub attempt : DeliveryAttemptRecord
attempt = record {
  id = 7;
  conversation_id = 1;
  idempotency_key = "key";
  provider_message_id = some "wamid.1";
  status = accepted;
  error_code = none;
  error_message = none;
  trace_id = "trace";
  created_at = 10;
  updated_at = 10;
}

abbrev pub message : MessageRecord
message = record {
  id = 3;
  conversation_id = 1;
  external_message_id = some "wamid.in";
  direction = Direction.inbound;
  kind = MessageKind.text;
  content_text = some "hola";
  trace_id = "trace";
  processing_status = some ProcessingStatus.pending;
  processing_attempts = 0;
  processing_available_at = some 20;
  processing_claimed_at = none;
  processing_error_code = none;
  created_at = 20;
}

abbrev pub later_message : MessageRecord
later_message = record message {
  id = 4;
  external_message_id = some "wamid.next";
  processing_available_at = some 30;
  created_at = 30;
}

abbrev pub no_attempts : Db
no_attempts = record {
  conversations = conversation ∷ [];
  messages = [];
  handoffs = [];
  attempts = [];
  status_events = [];
}

abbrev pub one_attempt : Db
one_attempt = record no_attempts { attempts = attempt ∷ [] }

abbrev pub two_messages : Db
two_messages = record no_attempts { messages = later_message ∷ message ∷ [] }

abbrev pub one_message : Db
one_message = record no_attempts { messages = message ∷ [] }

abbrev pub request : DeliveryRequest
request = record {
  idempotency_key = "key";
  conversation_id = "549110000";
  kind = DeliveryKind.text;
  text = some "hola";
  media_url = none;
  interactive_options = [];
  template_name = none;
  template_language = none;
  template_parameters = [];
  customer_service_window = open_window;
  trace_id = "trace";
}

abbrev pub sent_result : DeliveryResult
sent_result = record {
  status = DeliveryStatus.accepted;
  provider_message_id = some "wamid.1";
  error_code = none;
  error_message = none;
  trace_id = "trace";
  metadata = [];
}

abbrev pub callback : DeliveryStatus → MetaStatusUpdate
callback status = record {
  provider_message_id = "wamid.1";
  phone_number_id = "100";
  recipient_id = "549110000";
  status = status;
  occurred_at = 50;
  error_code = none;
  error_message = none;
}

abbrev pub inbound : InboundMessage
inbound = record {
  message_id = "wamid.in";
  channel = whatsapp;
  conversation_id = "549110000";
  sender_id = "549110000";
  kind = MessageKind.text;
  text = some "hola";
  received_at = utc 20;
  metadata = [];
}
