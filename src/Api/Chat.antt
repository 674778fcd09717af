-- ===== src/Api/Chat.antt =====
-- The routes of src/piki/api/chat.py, and `history` of src/piki/conversation/service.py. The orchestrator
-- is an argument, as it is of the router.
use buenpick_piki.Base.{
  ℕ, String, Bool, true, false, ◌&&◌, Option, none, some, List, [], ◌∷◌, fits, fits?, truthy,
  if◌then◌else◌,
}
use buenpick_piki.Base.Failure.{Result, ok, err, value_error, conversation_busy}
use buenpick_piki.Sql.{◌>>=◌}
use buenpick_piki.Domain.Messages.{
  InboundMessage, Channel, web, MessageKind, utc, validate_text_message,
}
use buenpick_piki.Db.Models.{Db, Direction}
use buenpick_piki.Db.Session.{session}
use buenpick_piki.Conversations.Store.{StoredMessage, find_conversation_id, recent_messages}
use buenpick_piki.Conversation.Service.{ConversationReply}
use buenpick_piki.Composition.Engine.{Role, user, assistant}
use buenpick_piki.Api.Answers.{Http, replies, http_error}

abbrev recent_of : Db → Option ℕ → Result (List StoredMessage × Db)
recent_of db none = ok ([], db)
recent_of db (some i) = recent_messages i 100 db >>= λ ms. ok (ms, db)

-- `history(channel=…, channel_account_id=…, conversation_id=…)`
unfoldable pub history : Channel → String → String → Db → Result (List StoredMessage) × Db
unfolding session find_conversation_id recent_messages
history channel account conversation_id db =
    session (λ d. recent_of d (find_conversation_id channel account conversation_id d)) db

pub record ChatMessageRequest : Type 0 where
  pub conversation_id : String
  pub message : String
  pub message_id : Option String

-- the bounds of the fields, which a request outside of them does not reach the route with
unfoldable pub validate_chat_request : ChatMessageRequest → Bool
validate_chat_request r =
    fits 1 255 r.conversation_id && fits 1 4096 r.message && fits? 1 255 r.message_id

abbrev pub account : String
account = "piki-local-console"

-- `request.message_id or f"web-{uuid4()}"`, where `fresh` is the second text
abbrev pub message_id_of : String → Option String → String
message_id_of fresh none = fresh
message_id_of fresh (some id) = if truthy id then id else fresh

abbrev pub inbound_of : String → ℕ → ChatMessageRequest → InboundMessage
inbound_of fresh now r = record {
  message_id = message_id_of fresh r.message_id;
  channel = web;
  conversation_id = r.conversation_id;
  sender_id = r.conversation_id;
  kind = MessageKind.text;
  text = some r.message;
  received_at = utc now;
  metadata = [];
}

abbrev not_configured {ℓ} : {A : Type ℓ} → Http A
not_configured = http_error 503 "conversation runtime is not configured"

abbrev pub Respond : Type 0 → Type 0
Respond W = InboundMessage → String → W → Result ConversationReply × W

module _ {W : Type 0} where
  abbrev pub responded : Result ConversationReply × W → Result (Http ConversationReply) × W
  responded (ok r, w) = (ok (replies r), w)
  responded (err (conversation_busy _), w) =
      (ok (http_error 409 "conversation is already being processed"), w)
  responded (err e, w) = (err e, w)

  abbrev pub sent : Respond W → W → Result InboundMessage → Result (Http ConversationReply) × W
  sent respond w (ok m) = responded (respond m account w)
  sent respond w (err e) = (err e, w)

  -- `send_message(request)`
  unfoldable pub send_message :
      Option (Respond W) → String → ℕ → ChatMessageRequest → W → Result (Http ConversationReply) × W
  unfolding validate_text_message
  send_message none fresh now r w = (ok not_configured, w)
  send_message (some respond) fresh now r w =
      sent respond w (validate_text_message (inbound_of fresh now r))

pub record ChatHistoryMessage : Type 0 where
  pub role : Role
  pub text : String
  pub created_at : ℕ

abbrev role_of : Direction → Role
role_of Direction.outbound = assistant
role_of Direction.inbound = user

validate_entry : ChatHistoryMessage → Result ChatHistoryMessage
validate_entry m = if fits 1 4096 m.text then ok m else err (value_error "field bounds")

abbrev add_entry :
    StoredMessage
    → Option String
    → Result (List ChatHistoryMessage)
    → Result (List ChatHistoryMessage)
add_entry m none rest = rest
add_entry m (some s) rest =
    if truthy s
    then validate_entry (record { role = role_of m.direction; text = s; created_at = m.created_at })
      >>= (λ e. rest >>= λ es. ok (e ∷ es))
    else rest

-- the entries of a history, without the messages that have no text
unfoldable pub entries_of : List StoredMessage → Result (List ChatHistoryMessage)
unfolding validate_entry
entries_of [] = ok []
entries_of (m ∷ ms) = add_entry m m.content_text (entries_of ms)

abbrev listed : Result (List StoredMessage) × Db → Result (Http (List ChatHistoryMessage)) × Db
listed (err e, db) = (err e, db)
listed (ok ms, db) = (entries_of ms >>= (λ es. ok (replies es)), db)

-- `conversation_history(conversation_id)`, by whether the orchestrator is configured
unfoldable pub conversation_history :
    Bool → String → Db → Result (Http (List ChatHistoryMessage)) × Db
unfolding history entries_of
conversation_history false conversation_id db = (ok not_configured, db)
conversation_history true conversation_id db = listed (history web account conversation_id db)
