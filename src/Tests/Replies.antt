-- ===== src/Tests/Replies.antt =====
-- Replies of the orchestrator, src/piki/conversation/service.py.
use buenpick_piki.Base.{
  ◌≡◌, refl, false, none, some, [], ◌∷◌, arith, any, fits, count, ◌==◌, eq_refl, true,
}
use buenpick_piki.Base.Failure.{ok}
use buenpick_piki.Sql.{select, one_or_none, insert_or_nothing}
use buenpick_piki.Db.Models.{Db, MessageRecord, Direction, has_conversation}
use buenpick_piki.Conversations.Store.{
  external_is, stored_message, find_message, recent_messages, newest_first, record_outbound,
  outbound_stored, insert_message,
}
use buenpick_piki.Coordination.Redis.{up}
use buenpick_piki.Coordination.Keys.{lock_key}
use buenpick_piki.Conversation.Intents.{resolve}
use buenpick_piki.Conversation.Service.{
  Composer, Readings, reply_external_id, scope_of, validate_reply, persisted_body, Outcome,
  ConversationReply, persisted_block, compose_and_store, new_reply,
}
use buenpick_piki.Conversation.Locked.{LockCalls, World}
use buenpick_piki.Conversation.Redelivered.{Redelivers, stored_reply-Redelivers}
use buenpick_piki.Conversation.Stable.{KeepsMessages, Again, reply_is_stable}
use buenpick_piki.Conversations.Recording.{OneExternal, inserted-OneExternal}
use buenpick_piki.Db.Session.{session}
use buenpick_piki.Tests.Samples.{one_message, message, inbound}
use buenpick_piki.Tests.Locks.{memory, sha, empty, put, alive}

abbrev pub composer : Composer
composer = record {
  compose = λ intent query trace conversation history id db. (ok ("hola!", false), db, []);
}

abbrev pub reads : Readings
reads = record { conversation = 2; inbound = 9; outbound = 10; now = 60; clock = 61 }

abbrev pub calls : LockCalls
calls = record {
  acquire_link = up;
  release_link = up;
  token = "mine";
  acquired_at = 100;
  released_at = 120;
}

abbrev world : World memory
world = record { db = one_message; redis = empty; emitted = [] }

abbrev held : World memory
held = record world {
  redis = put empty (lock_key sha (scope_of inbound "account")) (some ("theirs", 130));
}

is_held : alive 100 (held.redis (lock_key sha (scope_of inbound "account"))) ≡ some "theirs"
is_held = rw (eq_refl (lock_key sha (scope_of inbound "account"))) refl

abbrev reply_row : MessageRecord
reply_row = record message {
  id = 4;
  external_message_id = some "piki-reply:wamid.in";
  direction = Direction.outbound;
  content_text = some "chau";
  processing_status = none;
}

abbrev replied : Db
replied = record one_message { messages = message ∷ reply_row ∷ [] }

stored : find_message (reply_external_id inbound) replied ≡ ok (some (stored_message reply_row))
unfolding find_message select one_or_none
stored = refl

known : find_message inbound.message_id replied ≡ ok (some (stored_message message))
unfolding find_message select one_or_none
known = refl

new_conversation : has_conversation 2 replied ≡ false
unfolding has_conversation any
new_conversation = refl

new_message : any (λ (r : MessageRecord). r.id == 9) replied.messages ≡ false
unfolding any
new_message = refl

chau_fits : fits 1 4096 "chau" ≡ true
unfolding fits
chau_fits = refl

trace_fits : fits 1 128 reply_row.trace_id ≡ true
unfolding fits
trace_fits = refl

one-OneExternal : OneExternal one_message
unfolding count
one-OneExternal e = ground arith

no_reply_yet : any (external_is "piki-reply:wamid.in") one_message.messages ≡ false
unfolding any
no_reply_yet = refl

replied-OneExternal : OneExternal replied
replied-OneExternal =
    inserted-OneExternal reply_row "piki-reply:wamid.in" one_message refl false no_reply_yet
      one-OneExternal

stored_reply-Redelivers_example :
    Redelivers sha composer reads "account" inbound replied "chau" reply_row.trace_id
stored_reply-Redelivers_example =
    stored_reply-Redelivers sha composer reads "account" inbound replied (stored_message message)
      (stored_message reply_row) "chau" new_conversation new_message replied-OneExternal known
      stored refl chau_fits trace_fits

pub composer-KeepsMessages : KeepsMessages composer
composer-KeepsMessages = record {
  same_messages = λ i q tr n h e db. refl;
  same_conversations = λ i q tr n h e db j. refl;
}

new_row : any (λ (r : MessageRecord). r.id == 10) one_message.messages ≡ false
unfolding any
new_row = refl

in_conversation : has_conversation 1 one_message ≡ true
unfolding has_conversation any
in_conversation = refl

no_reply : find_message (reply_external_id inbound) one_message ≡ ok none
unfolding find_message select one_or_none
no_reply = refl

abbrev first : Outcome
first = persisted_body sha composer reads 1 inbound one_message

abbrev reply : ConversationReply
reply = new_reply sha 1 inbound "hola!" false

answers : first ≡ (ok reply, first.1, first.2)
unfolding persisted_body persisted_block compose_and_store session find_message select one_or_none
    recent_messages newest_first record_outbound insert_message insert_or_nothing outbound_stored
    any has_conversation validate_reply fits resolve
answers = refl

reply_is_stable_example : Again sha 1 inbound reply first.1
reply_is_stable_example =
    reply_is_stable sha 1 inbound composer reads one_message reply first.1 first.2
      composer-KeepsMessages new_row in_conversation one-OneExternal no_reply answers
