-- ===== src/Processing/Store.antt =====
-- `PostgresMessageProcessingStore` of src/piki/db/processing.py. The clock is an argument; the
-- rows that other transactions hold locked are a test on row identifiers.
use buenpick_piki.Base.{
  ℕ, String, Bool, true, false, not, ◌&&◌, ◌+◌, ◌-◌, ◌*◌, Option, none, some, List, [], ◌∷◌, ◌==◌,
  leb, ltb, any, fits, if◌then◌else◌,
}
use buenpick_piki.Base.Failure.{Result, ok, err, runtime_error, value_error}
use buenpick_piki.Sql.{◌>>=◌, select, update}
use buenpick_piki.Sql.Laws.{find}
use buenpick_piki.Domain.Messages.{InboundMessage, utc, validate_text_message}
use buenpick_piki.Db.Models.{
  Db, MessageRecord, ConversationRecord, Direction, ProcessingStatus, pending, processing,
  completed,
}
use buenpick_piki.Db.Session.{Block, session}

pub record ClaimedInbound : Type 0 where
  pub message_record_id : ℕ
  pub conversation_record_id : ℕ
  pub channel_account_id : String
  pub message : InboundMessage
  pub attempts : ℕ

abbrev pub is_inbound : Direction → Bool
is_inbound Direction.inbound = true
is_inbound Direction.outbound = false

-- `column <= t`, where NULL is not true
abbrev pub at_most : Option ℕ → ℕ → Bool
at_most none t = false
at_most (some u) t = leb u t

abbrev pub second : ℕ
second = 1000000

-- the two cases of the WHERE clause
abbrev pub is_ready : ℕ → ℕ → Option ProcessingStatus → MessageRecord → Bool
is_ready now stale_before (some ProcessingStatus.pending) m = at_most m.processing_available_at now
is_ready now stale_before (some ProcessingStatus.processing) m =
    at_most m.processing_claimed_at stale_before
is_ready now stale_before _ m = false

abbrev pub conversation_is : ℕ → ConversationRecord → Bool
conversation_is i c = c.id == i

-- WHERE, the JOIN and SKIP LOCKED
unfoldable pub is_claimable : (ℕ → Bool) → ℕ → ℕ → Db → MessageRecord → Bool
is_claimable locked now stale_before db m =
    is_inbound m.direction
    && is_ready now stale_before m.processing_status m
    && any (conversation_is m.conversation_id) db.conversations
    && not (locked m.id)

-- ORDER BY processing_available_at, created_at: NULL comes last
unfoldable pub comes_before : Option ℕ → ℕ → Option ℕ → ℕ → Bool
comes_before none c none d = ltb c d
comes_before none c (some b) d = false
comes_before (some a) c none d = true
comes_before (some a) c (some b) d = if a == b then ltb c d else ltb a b

abbrev pub is_earlier : MessageRecord → MessageRecord → Bool
is_earlier m n =
    comes_before m.processing_available_at m.created_at n.processing_available_at n.created_at

abbrev pub earlier_of : MessageRecord → Option MessageRecord → MessageRecord
earlier_of m none = m
earlier_of m (some n) = if is_earlier n m then n else m

-- LIMIT 1: among rows that tie, the first inserted
unfoldable pub earliest : List MessageRecord → Option MessageRecord
unfolding comes_before
earliest [] = none
earliest (m ∷ rest) = some (earlier_of m (earliest rest))

abbrev pub message_is : ℕ → MessageRecord → Bool
message_is i m = m.id == i

abbrev pub claimed_row : ℕ → MessageRecord → MessageRecord
claimed_row now m = record m {
  processing_status = some processing;
  processing_attempts = m.processing_attempts + 1;
  processing_claimed_at = some now;
  processing_error_code = none;
}

-- the message that the worker is given
abbrev pub rebuilt : String → MessageRecord → ConversationRecord → InboundMessage
rebuilt external_id m c = record {
  message_id = external_id;
  channel = c.channel;
  conversation_id = c.external_conversation_id;
  sender_id = c.external_conversation_id;
  kind = m.kind;
  text = m.content_text;
  received_at = utc m.created_at;
  metadata = [];
}

abbrev claimed_inbound : MessageRecord → ConversationRecord → InboundMessage → Result ClaimedInbound
claimed_inbound m c message =
    if not (fits 1 255 c.channel_account_id)
    then err (value_error "field bounds")
    else ok (record {
      message_record_id = m.id;
      conversation_record_id = c.id;
      channel_account_id = c.channel_account_id;
      message = message;
      attempts = m.processing_attempts + 1;
    })

unfoldable pub give : MessageRecord → ConversationRecord → Option String → Result ClaimedInbound
give m c none = err (runtime_error "processable inbound message has no external ID")
give m c (some external_id) =
    validate_text_message (rebuilt external_id m c) >>= λ message. claimed_inbound m c message

-- the row and the conversation that it joins
claim_joined : ℕ → MessageRecord → Option ConversationRecord → Block (Option ClaimedInbound)
claim_joined now m none db = ok (none, db)
claim_joined now m (some c) db = give m c m.external_message_id >>= λ job.
    ok (some job, record db { messages = update (message_is m.id) (claimed_row now) db.messages })

claim_row : ℕ → Option MessageRecord → Block (Option ClaimedInbound)
unfolding claim_joined
claim_row now none db = ok (none, db)
claim_row now (some m) db =
    claim_joined now m (find (conversation_is m.conversation_id) db.conversations) db

claim_block : (ℕ → Bool) → ℕ → ℕ → Block (Option ClaimedInbound)
unfolding claim_row is_claimable earliest
claim_block locked now claim_timeout_seconds db =
    claim_row now
      (earliest
        (select (is_claimable locked now (now - claim_timeout_seconds * second) db) db.messages))
      db

-- `claim_next(claim_timeout_seconds=…)`
unfoldable pub claim_next : (ℕ → Bool) → ℕ → ℕ → Db → Result (Option ClaimedInbound) × Db
unfolding claim_block session
claim_next locked now claim_timeout_seconds = session (claim_block locked now claim_timeout_seconds)

abbrev pub is_processing : Option ProcessingStatus → Bool
is_processing (some ProcessingStatus.processing) = true
is_processing _ = false

abbrev pub active_claim : ℕ → MessageRecord → Bool
active_claim i m = message_is i m && is_processing m.processing_status

abbrev pub transitioned :
    ProcessingStatus → Option String → Option ℕ → MessageRecord → MessageRecord
transitioned status error_code available_at m = record m {
  processing_status = some status;
  processing_available_at = available_at;
  processing_claimed_at = none;
  processing_error_code = error_code;
}

transition_block : ℕ → ProcessingStatus → Option String → Option ℕ → Block (Unit {0})
transition_block i status error_code available_at db =
    if any (active_claim i) db.messages
    then ok (
      tt,
      record db {
        messages =
            update (active_claim i) (transitioned status error_code available_at) db.messages;
      },
    )
    else err (runtime_error "message processing claim is no longer active")

-- `_transition`
unfoldable pub transition :
    ℕ → ProcessingStatus → Option String → Option ℕ → Db → Result (Unit {0}) × Db
unfolding transition_block session
transition i status error_code available_at =
    session (transition_block i status error_code available_at)

-- `complete(message_record_id)`
unfoldable pub complete : ℕ → Db → Result (Unit {0}) × Db
unfolding transition
complete i = transition i completed none none

-- `fail(message_record_id, error_code=…, retry=…)`, with the default delay of one second
unfoldable pub fail : ℕ → ℕ → String → Bool → Db → Result (Unit {0}) × Db
unfolding transition
fail now i error_code retry =
    if retry
    then transition i pending (some error_code) (some (now + second))
    else transition i ProcessingStatus.failed (some error_code) none
