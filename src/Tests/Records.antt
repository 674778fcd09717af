-- ===== src/Tests/Records.antt =====
-- Messages and requests for a human, recorded (src/piki/db/conversations.py, src/piki/db/handoffs.py).
use buenpick_piki.Base.{◌≡◌, refl, true, false, not, ◌==◌, some, any, count, arith}
use buenpick_piki.Base.Failure.{ok}
use buenpick_piki.Sql.{one_or_none, select}
use buenpick_piki.Domain.Messages.{whatsapp}
use buenpick_piki.Db.Models.{Db, MessageRecord, HandoffRecord, has_conversation}
use buenpick_piki.Conversations.Store.{
  PersistedInbound, stored_message, find_message, find_conversation_id, record_inbound,
}
use buenpick_piki.Conversations.Recording.{OneExternal}
use buenpick_piki.Conversations.Idempotence.{Recorded, record_inbound_once}
use buenpick_piki.Handoffs.Store.{HandoffRequest, PersistedHandoff, request}
use buenpick_piki.Handoffs.Requests.{OneOpen, Settled, is_answered, request_settles}
use buenpick_piki.Tests.Samples.{one_message, message, inbound}

new_conversation : has_conversation 2 one_message ≡ false
unfolding has_conversation any
new_conversation = refl

old_conversation : has_conversation 1 one_message ≡ true
unfolding has_conversation any
old_conversation = refl

new_message : any (λ (r : MessageRecord). r.id == 9) one_message.messages ≡ false
unfolding any
new_message = refl

one-OneExternal : OneExternal one_message
unfolding count
one-OneExternal e = ground arith

known : find_message "wamid.in" one_message ≡ ok (some (stored_message message))
unfolding find_message select one_or_none
known = refl

-- the message is in the table already
record_inbound_once_example :
    (o : PersistedInbound × Db) × ((record_inbound 2 9 50 51 "account" inbound "trace" true
          one_message
        ≡ ok o)
      × (find_conversation_id whatsapp "account" "549110000" o.1 ≡ some o.0.conversation_id)
      × OneExternal o.1
      × Recorded 2 9 50 51 "account" inbound "trace" true one_message
          (some (stored_message message))
          o.0
          o.1)
record_inbound_once_example =
    record_inbound_once 2 9 50 51 "account" inbound "trace" true one_message
      (some (stored_message message)) new_conversation new_message one-OneExternal known

abbrev asks : HandoffRequest
asks = record {
  conversation_id = 1;
  idempotency_key = "ask";
  reason = "humano";
  trace_id = "trace";
}

new_handoff : any (λ (h : HandoffRecord). h.id == 5) one_message.handoffs ≡ false
unfolding any
new_handoff = refl

none_open : OneOpen one_message.handoffs
unfolding count
none_open c = omega arith

request_settles_example :
    (o : PersistedHandoff × Db) × ((request 5 70 asks one_message ≡ ok o)
      × (o.0.created ≡ not (is_answered asks one_message.handoffs))
      × Settled asks o.0 o.1)
request_settles_example =
    request_settles asks 5 70 one_message new_handoff old_conversation none_open
