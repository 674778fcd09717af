-- ===== src/Conversations/Store.antt =====
-- `ConversationRepository` of src/piki/db/conversations.py. Fresh identifiers and the clock of the
-- database (`now`) and of the process (`clock`) are arguments.
use buenpick_piki.Base.{
  ℕ, String, Bool, true, false, not, ◌&&◌, ◌||◌, Option, none, some, List, [], ◌∷◌, ◌++◌, ◌==◌, ltb,
  any, map, take, str_eq, column_is, if◌then◌else◌,
}
use buenpick_piki.Base.Failure.{Result, ok, err, value_error, integrity_error}
use buenpick_piki.Sql.{◌>>=◌, select, update, insert_or_nothing, one, one_or_none}
use buenpick_piki.Sql.Laws.{find}
use buenpick_piki.Domain.Messages.{Channel, same_channel, InboundMessage, MessageKind}
use buenpick_piki.Db.Models.{
  Db, MessageRecord, ConversationRecord, Direction, pending, piki_active, has_conversation,
}
use buenpick_piki.Db.Session.{Block}

pub data PersistStatus : Type 0 where
  created duplicate : PersistStatus

pub record PersistedInbound : Type 0 where
  pub status : PersistStatus
  pub conversation_id : ℕ
  pub message_id : Option ℕ

pub record StoredMessage : Type 0 where
  pub id : ℕ
  pub external_message_id : Option String
  pub direction : Direction
  pub kind : MessageKind
  pub content_text : Option String
  pub trace_id : String
  pub created_at : ℕ

pub record PersistedOutbound : Type 0 where
  pub message_id : ℕ
  pub created : Bool

-- uq_conversation_channel_identity
abbrev pub identity_is : Channel → String → String → ConversationRecord → Bool
identity_is channel account external c =
    same_channel c.channel channel
    && str_eq c.channel_account_id account
    && str_eq c.external_conversation_id external

abbrev pub touch : ℕ → ConversationRecord → ConversationRecord
touch now c = record c { updated_at = now }

abbrev pub new_conversation : ℕ → ℕ → String → InboundMessage → ConversationRecord
new_conversation conversation now account m = record {
  id = conversation;
  channel = m.channel;
  channel_account_id = account;
  external_conversation_id = m.conversation_id;
  status = piki_active;
  created_at = now;
  updated_at = now;
}

-- INSERT … ON CONFLICT DO UPDATE RETURNING id, by the row that is in the way
unfoldable pub upsert : ℕ → ℕ → String → InboundMessage → Option ConversationRecord → Block ℕ
upsert conversation now account m (some c) db = ok (
  c.id,
  record db {
    conversations =
        update (identity_is m.channel account m.conversation_id) (touch now) db.conversations;
  },
)
upsert conversation now account m none db =
    if has_conversation conversation db
    then err integrity_error
    else ok (
      conversation,
      record db {
        conversations = db.conversations ++ new_conversation conversation now account m ∷ [];
      },
    )

unfoldable pub upsert_conversation : ℕ → ℕ → String → InboundMessage → Block ℕ
unfolding upsert
upsert_conversation conversation now account m db =
    upsert conversation now account m
      (find (identity_is m.channel account m.conversation_id) db.conversations) db

abbrev pub external_is : String → MessageRecord → Bool
external_is external m = column_is m.external_message_id external

abbrev pub inbound_row : ℕ → ℕ → ℕ → ℕ → String → Bool → InboundMessage → MessageRecord
inbound_row message now clock conversation trace_id enqueue m = record {
  id = message;
  conversation_id = conversation;
  external_message_id = some m.message_id;
  direction = Direction.inbound;
  kind = m.kind;
  content_text = m.text;
  trace_id = trace_id;
  processing_status = if enqueue then some pending else none;
  processing_attempts = 0;
  processing_available_at = if enqueue then some clock else none;
  processing_claimed_at = none;
  processing_error_code = none;
  created_at = now;
}

-- the message's INSERT … ON CONFLICT (external_message_id) DO NOTHING
unfoldable pub insert_message : MessageRecord → String → Block (Option MessageRecord)
insert_message row external db =
    insert_or_nothing (any (external_is external) db.messages)
      (any (λ r. r.id == row.id) db.messages || not (has_conversation row.conversation_id db)) row
      db.messages
    >>= λ s. ok (s.0, record db { messages = s.1 })

abbrev pub persisted : ℕ → Option MessageRecord → PersistedInbound
persisted conversation none = record {
  status = duplicate;
  conversation_id = conversation;
  message_id = none;
}
persisted conversation (some row) = record {
  status = created;
  conversation_id = conversation;
  message_id = some row.id;
}

-- `record_inbound`
unfoldable pub record_inbound :
    ℕ → ℕ → ℕ → ℕ → String → InboundMessage → String → Bool → Block PersistedInbound
unfolding insert_message upsert_conversation insert_or_nothing
record_inbound conversation message now clock account m trace_id enqueue db =
    upsert_conversation conversation now account m db >>= λ u.
    insert_message (inbound_row message now clock u.0 trace_id enqueue m) m.message_id u.1 >>= λ s.
    ok (persisted u.0 s.0, s.1)

abbrev pub stored_message : MessageRecord → StoredMessage
stored_message row = record {
  id = row.id;
  external_message_id = row.external_message_id;
  direction = row.direction;
  kind = row.kind;
  content_text = row.content_text;
  trace_id = row.trace_id;
  created_at = row.created_at;
}

-- ORDER BY created_at DESC, id DESC
abbrev pub is_newer : MessageRecord → MessageRecord → Bool
is_newer a b = if a.created_at == b.created_at then ltb b.id a.id else ltb b.created_at a.created_at

unfoldable pub insert_newest : MessageRecord → List MessageRecord → List MessageRecord
insert_newest m [] = m ∷ []
insert_newest m (n ∷ rows) =
    let rest = insert_newest m rows in if is_newer n m then n ∷ rest else m ∷ n ∷ rows

unfoldable pub newest_first : List MessageRecord → List MessageRecord
unfolding insert_newest
newest_first [] = []
newest_first (m ∷ rows) = insert_newest m (newest_first rows)

abbrev pub in_conversation : ℕ → MessageRecord → Bool
in_conversation conversation m = m.conversation_id == conversation

abbrev pub reversed : {A : Type 0} → List A → List A
reversed [] = []
reversed (x ∷ xs) = reversed xs ++ x ∷ []

-- `recent_messages(conversation_id, limit=…)`
unfoldable pub recent_messages : ℕ → ℕ → Db → Result (List StoredMessage)
unfolding newest_first
recent_messages conversation limit db =
    if ltb limit 1 || ltb 100 limit
    then err (value_error "message history limit must be between 1 and 100")
    else ok (
        map stored_message (
          reversed (take limit (newest_first (select (in_conversation conversation) db.messages)))))

abbrev id_of : Option ConversationRecord → Option ℕ
id_of none = none
id_of (some c) = some c.id

-- `find_conversation_id`: the first row, or None
unfoldable pub find_conversation_id : Channel → String → String → Db → Option ℕ
find_conversation_id channel account external db =
    id_of (find (identity_is channel account external) db.conversations)

abbrev pub outbound_row : ℕ → ℕ → ℕ → String → String → String → MessageRecord
outbound_row message now conversation text trace_id external = record {
  id = message;
  conversation_id = conversation;
  external_message_id = some external;
  direction = Direction.outbound;
  kind = MessageKind.text;
  content_text = some text;
  trace_id = trace_id;
  processing_status = none;
  processing_attempts = 0;
  processing_available_at = none;
  processing_claimed_at = none;
  processing_error_code = none;
  created_at = now;
}

unfoldable pub outbound_stored : String → Option MessageRecord → Block PersistedOutbound
outbound_stored external (some row) db = ok (record { message_id = row.id; created = true }, db)
outbound_stored external none db = one (select (external_is external) db.messages) >>= λ row.
    ok (record { message_id = row.id; created = false }, db)

-- `record_outbound`
unfoldable pub record_outbound : ℕ → ℕ → ℕ → String → String → String → Block PersistedOutbound
unfolding insert_message outbound_stored
record_outbound message now conversation text trace_id external db =
    insert_message (outbound_row message now conversation text trace_id external) external db
    >>= λ s. outbound_stored external s.0 s.1

abbrev pub stored_or_none : Option MessageRecord → Option StoredMessage
stored_or_none none = none
stored_or_none (some row) = some (stored_message row)

-- `find_message`
unfoldable pub find_message : String → Db → Result (Option StoredMessage)
find_message external db =
    one_or_none (select (external_is external) db.messages) >>= λ row. ok (stored_or_none row)
