-- ===== src/Conversation/Replayed.antt =====
-- A message whose reply is stored, src/piki/conversation/service.py: the stored reply is given again
-- and nothing is composed.
use buenpick_piki.Base.{ℕ, String, ◌≡◌, refl, true, false, some, [], truthy?, arith}
use buenpick_piki.Base.Failure.{ok}
use buenpick_piki.Domain.Messages.{InboundMessage}
use buenpick_piki.Db.Models.{Db}
use buenpick_piki.Db.Session.{session}
use buenpick_piki.Conversations.Store.{
  PersistedInbound, duplicate, StoredMessage, find_message, record_inbound,
}
use buenpick_piki.Conversation.Service.{
  Composer, Readings, stored_reply, reply_external_id, trace_of, validate_reply, persisted_block,
  persisted_body, locked_block, respond_locked,
}

module _ (normalize : String → String) (c : Composer) (t : Readings) (conversation : ℕ)
    (account : String) (m : InboundMessage) (db : Db) (s : StoredMessage) where
  -- Where a reply with a text is stored for a message and passes the reply's validator, the
  -- worker's body gives that reply as a duplicate, with any composer, and changes and emits
  -- nothing.
  pub replayed_to_worker :
      find_message (reply_external_id m) db ≡ ok (some s)
      → truthy? s.content_text ≡ true
      → validate_reply (stored_reply normalize conversation m s)
        ≡ ok (stored_reply normalize conversation m s)
      → persisted_body normalize c t conversation m db
        ≡ (ok (stored_reply normalize conversation m s), db, [])
  unfolding persisted_body persisted_block session
  replayed_to_worker h words v = rw (h, words, v) refl

  -- Where the message is recorded as a duplicate and a reply with a text is stored for it and
  -- passes the reply's validator, the body of `respond` gives that reply as a duplicate, with any
  -- composer, in the conversation that the recording named, and leaves the tables as the recording
  -- did.
  pub replayed_to_caller :
      (p : PersistedInbound) (db' : Db)
      → record_inbound t.conversation t.inbound t.now t.clock account m (trace_of m) false db
        ≡ ok (p, db')
      → p.status ≡ duplicate
      → find_message (reply_external_id m) db' ≡ ok (some s)
      → truthy? s.content_text ≡ true
      → validate_reply (stored_reply normalize p.conversation_id m s)
        ≡ ok (stored_reply normalize p.conversation_id m s)
      → respond_locked normalize c t account m db
        ≡ (ok (stored_reply normalize p.conversation_id m s), db', [])
  unfolding respond_locked locked_block session
  replayed_to_caller p db' is dup h words v = ground arith
