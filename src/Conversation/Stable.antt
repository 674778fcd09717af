-- ===== src/Conversation/Stable.antt =====
-- A reply of the worker, src/piki/conversation/service.py, given again: once it is stored, every later
-- run of the body gives the same text.
use buenpick_piki.Base.{
  ◌∷◌, ℕ, String, ◌≡◌, refl, Bool, true, false, none, some, List, [], ◌++◌, any, ◌==◌, truthy, fits,
  arith, ◌∙◌, ap, sym,
}
use mathlib.Core.Path.{subst}
use buenpick_piki.Base.Failure.{Result, ok, err}
use buenpick_piki.Domain.Messages.{InboundMessage}
use buenpick_piki.Observability.{LifecycleRecord}
use buenpick_piki.Db.Models.{Db, MessageRecord, has_conversation}
use buenpick_piki.Db.Session.{session}
use buenpick_piki.Conversations.Store.{
  StoredMessage, find_message, recent_messages, outbound_row, stored_message,
}
use buenpick_piki.Conversations.Recording.{OneExternal}
use buenpick_piki.Conversations.Replies.{record_outbound_once}
use buenpick_piki.Conversation.Service.{
  ConversationReply, Composer, Readings, new_reply, stored_reply, reply_external_id, trace_of,
  or_empty, resolved_event, after_resolved, validate_reply, persisted_block, persisted_body,
  compose_and_store, outbound_block, after_composed, after_outbound, read_history, history,
}
use buenpick_piki.Conversation.Intents.{ConversationIntent, resolve}
use buenpick_piki.Conversation.Replayed.{replayed_to_worker}

-- a composition that leaves messages and conversations where they are
pub record KeepsMessages (c : Composer) : Type 0 where
  pub same_messages :
      (i : ConversationIntent) (q tr : String) (n : ℕ) (h : List StoredMessage) (e : String)
      (db : Db)
      → (c.compose i q tr n h e db).1.messages ≡ db.messages
  pub same_conversations :
      (i : ConversationIntent) (q tr : String) (n : ℕ) (h : List StoredMessage) (e : String)
      (db : Db) (j : ℕ)
      → has_conversation j (c.compose i q tr n h e db).1 ≡ has_conversation j db

pub long_enough : (s : String) → fits 1 4096 s ≡ true → truthy s ≡ true
unfolding fits
long_enough String.[] h = absurd (cc)
long_enough (String.◌∷◌ c s) h = refl

valid_reply :
    (r a : ConversationReply)
    → validate_reply r ≡ ok a
    → (r ≡ a) × (fits 1 4096 r.text ≡ true) × (fits 1 128 r.trace_id ≡ true)
unfolding validate_reply
valid_reply r a h = ground arith

pub still_valid :
    (r : ConversationReply)
    → fits 1 4096 r.text ≡ true
    → fits 1 128 r.trace_id ≡ true
    → validate_reply r ≡ ok r
unfolding validate_reply
still_valid r h k = ground arith

pub same_find :
    (e : String) (db db' : Db) → db'.messages ≡ db.messages → find_message e db' ≡ find_message e db
unfolding find_message
same_find e db db' h = rw h refl

module _ (normalize : String → String) (conversation : ℕ) (m : InboundMessage) where
  abbrev row : Readings → String → MessageRecord
  row t text = outbound_row t.outbound t.now conversation text (trace_of m) (reply_external_id m)

  -- what is stored of a composed reply
  stored_after :
      (t : Readings) (text : String) (db : Db)
      → any (λ (r : MessageRecord). r.id == t.outbound) db.messages ≡ false
      → has_conversation conversation db ≡ true
      → OneExternal db
      → find_message (reply_external_id m) db ≡ ok none
      → (db' : Db) × (session (outbound_block normalize t conversation m text) db ≡ (ok tt, db'))
        × (find_message (reply_external_id m) db' ≡ ok (some (stored_message (row t text))))
  unfolding outbound_block session
  stored_after t text db fresh conv one_external unknown =
      let (o, kept) =
        record_outbound_once t.outbound t.now conversation text (trace_of m) (reply_external_id m)
          db none fresh conv one_external unknown in
      let (done, _, stored) = kept in let (_, _, found) = stored in (o.1, rw done refl, found)

  abbrev pub Again : ConversationReply → Db → Type 0
  Again reply db =
      (c' : Composer) (t' : Readings)
      → persisted_body normalize c' t' conversation m db
        ≡ (ok (record reply { used_fallback = false; is_duplicate = true }), db, [])

  -- after a composition
  composed-Again :
      (t : Readings) (events : List LifecycleRecord)
      (done : Result (String × Bool) × Db × List LifecycleRecord) (reply : ConversationReply)
      (db' : Db) (ev : List LifecycleRecord)
      → any (λ (r : MessageRecord). r.id == t.outbound) done.1.messages ≡ false
      → has_conversation conversation done.1 ≡ true
      → OneExternal done.1
      → find_message (reply_external_id m) done.1 ≡ ok none
      → after_composed normalize t conversation m events done ≡ (ok reply, db', ev)
      → Again reply db'
  composed-Again t events (err e, db, more) reply db' ev fresh conv one unknown h = absurd (cc)
  composed-Again t events (ok (text, fallback), db, more) reply db' ev fresh conv one unknown h =
      let (after, is, found) = stored_after t text db fresh conv one unknown in
      let said = new_reply normalize conversation m text fallback in
      let ends : after_outbound normalize conversation m text fallback (events ++ more)
            (ok tt, after)
          ≡ (ok reply, db', ev) =
        subst
          (λ o.
            after_outbound normalize conversation m text fallback (events ++ more) o
            ≡ (ok reply, db', ev))
          is h in
      let (same, text_fits, trace_fits) = valid_reply said reply (ap (λ o. o.0) ends) in
      let again : Again said after = λ c' t'.
        replayed_to_worker normalize c' t' conversation "" m after (stored_message (row t text))
          found (long_enough text text_fits)
          (still_valid (stored_reply normalize conversation m (stored_message (row t text)))
            text_fits trace_fits) in
      subst (λ d. Again reply d) (ap (λ o. o.1) ends) (subst (λ q. Again q after) same again)

  pub history_read :
      (db : Db)
      → (h : List StoredMessage) × (read_history normalize conversation db ≡ ok (history h))
  unfolding recent_messages
  history_read db = (_, refl)

  pub body_composes :
      (c : Composer) (t : Readings) (db : Db) (h : List StoredMessage)
      → find_message (reply_external_id m) db ≡ ok none
      → read_history normalize conversation db ≡ ok (history h)
      → persisted_body normalize c t conversation m db
        ≡ compose_and_store normalize c t conversation m h db
  unfolding persisted_body persisted_block session
  body_composes c t db h unknown is = rw (unknown, is) refl

  -- a reply that is composed follows a record that was emitted
  emitted_first :
      (c : Composer) (t : Readings) (h : List StoredMessage) (db : Db) (reply : ConversationReply)
      (db' : Db) (ev : List LifecycleRecord) (x : Result LifecycleRecord)
      → after_resolved normalize c t conversation m h db x ≡ (ok reply, db', ev)
      → (e : LifecycleRecord) × (after_resolved normalize c t conversation m h db (ok e)
          ≡ (ok reply, db', ev))
  emitted_first c t h db reply db' ev (ok e) done = (e, done)
  emitted_first c t h db reply db' ev (err e) done = absurd (cc)

  -- With a composer that keeps messages and conversations, where the conversation exists, the
  -- reply's identifier is fresh, external identifiers are unique and no reply is stored: once the
  -- worker's body has given a reply for a message, every later run of the body for it on the
  -- tables that are left, with any composer, gives the same text and trace as a duplicate, and
  -- changes and emits nothing.
  pub reply_is_stable :
      (c : Composer) (t : Readings) (db : Db) (reply : ConversationReply) (db' : Db)
      (ev : List LifecycleRecord)
      → KeepsMessages c
      → any (λ (r : MessageRecord). r.id == t.outbound) db.messages ≡ false
      → has_conversation conversation db ≡ true
      → OneExternal db
      → find_message (reply_external_id m) db ≡ ok none
      → persisted_body normalize c t conversation m db ≡ (ok reply, db', ev)
      → Again reply db'
  unfolding compose_and_store
  reply_is_stable c t db reply db' ev keeps fresh conv one unknown done =
      let (h, is) = history_read db in
      let intent = resolve normalize (or_empty m.text) in
      let composed =
        c.compose intent (or_empty m.text) (trace_of m) conversation h m.message_id db in
      let rows : composed.1.messages ≡ db.messages =
        keeps.same_messages intent (or_empty m.text) (trace_of m) conversation h m.message_id db in
      let (e, ends) =
        emitted_first c t h db reply db' ev (resolved_event normalize t m)
          (sym (body_composes c t db h unknown is) ∙ done) in
      composed-Again t (e ∷ []) composed reply db' ev
        (subst (λ rs. any (λ (r : MessageRecord). r.id == t.outbound) rs ≡ false) (sym rows) fresh)
        (keeps.same_conversations intent (or_empty m.text) (trace_of m) conversation h m.message_id
            db conversation
          ∙ conv)
        (λ e. rw rows (one e)) (same_find (reply_external_id m) db composed.1 rows ∙ unknown) ends
