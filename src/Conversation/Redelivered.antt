-- ===== src/Conversation/Redelivered.antt =====
-- A message that comes again to `respond` of src/piki/conversation/service.py once its reply is stored.
use buenpick_piki.Base.{String, ◌≡◌, refl, true, false, some, [], ◌==◌, any, fits, ◌∙◌}
use buenpick_piki.Base.Failure.{ok}
use buenpick_piki.Domain.Messages.{InboundMessage}
use buenpick_piki.Db.Models.{Db, MessageRecord, has_conversation}
use buenpick_piki.Conversations.Store.{StoredMessage, find_message, find_conversation_id}
use buenpick_piki.Conversations.Recording.{OneExternal}
use buenpick_piki.Conversations.Idempotence.{record_inbound_once}
use buenpick_piki.Conversation.Service.{
  ConversationReply, Composer, Readings, stored_reply, reply_external_id, trace_of, respond_locked,
}
use buenpick_piki.Conversation.Replayed.{replayed_to_caller}
use buenpick_piki.Conversation.Stable.{same_find, long_enough, still_valid}

module _ (normalize : String → String) (c : Composer) (t : Readings) (account : String)
    (m : InboundMessage) (db : Db) where
  -- the stored reply is given, as a duplicate, and the messages stay
  abbrev pub Redelivers : String → String → Type 0
  Redelivers text trace_id =
      (reply : ConversationReply) × (db' : Db) × (respond_locked normalize c t account m db
        ≡ (ok reply, db', []))
      × (reply.text ≡ text)
      × (reply.trace_id ≡ trace_id)
      × (reply.is_duplicate ≡ true)
      × (find_conversation_id m.channel account m.conversation_id db' ≡ some reply.conversation_id)
      × (db'.messages ≡ db.messages)

  -- With fresh identifiers, in tables where external identifiers are unique, and where the message
  -- is stored, whatever its conversation, and so is a reply with a text and a trace in bounds: the
  -- body of `respond` gives the text and the trace of that reply as a duplicate, with any
  -- composer, emits nothing and leaves the messages as they were; the reply names the conversation
  -- of the message's channel identity.
  pub stored_reply-Redelivers :
      (earlier s : StoredMessage) (text : String)
      → has_conversation t.conversation db ≡ false
      → any (λ (r : MessageRecord). r.id == t.inbound) db.messages ≡ false
      → OneExternal db
      → find_message m.message_id db ≡ ok (some earlier)
      → find_message (reply_external_id m) db ≡ ok (some s)
      → s.content_text ≡ some text
      → fits 1 4096 text ≡ true
      → fits 1 128 s.trace_id ≡ true
      → Redelivers text s.trace_id
  stored_reply-Redelivers earlier s text new_c new_m one known replied says text_fits trace_fits =
      let ((p, db'), outcome) =
        record_inbound_once t.conversation t.inbound t.now t.clock account m (trace_of m) false db
          (some earlier) new_c new_m one known in
      let (recorded, conversation, _, kept) = outcome in
      let (duplicate, _, same, _) = kept in
      let reply = stored_reply normalize p.conversation_id m s in
      let told : reply.text ≡ text = rw says refl in
      (
        reply,
        db',
        replayed_to_caller normalize c t p.conversation_id account m db s p db' recorded duplicate
            (same_find (reply_external_id m) db db' same ∙ replied)
            (rw says (long_enough text text_fits))
            (still_valid reply (rw says text_fits) trace_fits),
        told,
        refl,
        refl,
        conversation,
        same,
      )
