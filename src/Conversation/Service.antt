-- ===== src/Conversation/Service.antt =====
-- `respond` and `respond_persisted` of `ConversationOrchestrator`, src/piki/conversation/service.py. The
-- composition of a reply is the interface `Composer`.
use Prim.Native.String.{◌++◌ as append}
use buenpick_piki.Base.{
  ℕ, String, Bool, true, false, ◌&&◌, Option, none, some, List, [], ◌∷◌, ◌++◌, truthy?, fits,
  if◌then◌else◌,
}
use buenpick_piki.Base.Failure.{Result, ok, err, value_error, conversation_busy}
use buenpick_piki.Sql.{◌>>=◌}
use buenpick_piki.Domain.Messages.{InboundMessage}
use buenpick_piki.Observability.{LifecycleRecord, EventOutcome, intent_resolved, emit}
use buenpick_piki.Db.Models.{Db}
use buenpick_piki.Db.Session.{Block, session}
use buenpick_piki.Conversations.Store.{
  PersistedInbound, created, duplicate, StoredMessage, record_inbound, recent_messages,
  record_outbound, find_message,
}
use buenpick_piki.Coordination.Keys.{ConversationScope}
use buenpick_piki.Conversation.Intents.{
  ConversationIntent, greeting, discover_picks, human_handoff, explain_buenpick, resolve,
}

pub record ConversationReply : Type 0 where
  pub conversation_id : ℕ
  pub text : String
  pub intent : ConversationIntent
  pub trace_id : String
  pub used_fallback : Bool
  pub is_duplicate : Bool

-- the bounds of the fields
unfoldable pub validate_reply : ConversationReply → Result ConversationReply
validate_reply r =
    if fits 1 4096 r.text && fits 1 128 r.trace_id then ok r else err (value_error "field bounds")

-- `_compose_reply`: the text of a reply and whether it is a fallback, from the intent, the query,
-- the trace, the conversation, its history and the message's identifier
pub record Composer : Type 0 where
  pub compose :
      ConversationIntent
      → String
      → String
      → ℕ
      → List StoredMessage
      → String
      → Db
      → Result (String × Bool) × Db × List LifecycleRecord

abbrev pub intent_value : ConversationIntent → String
intent_value greeting = "greeting"
intent_value discover_picks = "discover_picks"
intent_value human_handoff = "human_handoff"
intent_value explain_buenpick = "explain_buenpick"

-- `text or ""`
abbrev pub or_empty : Option String → String
or_empty none = ""
or_empty (some s) = s

abbrev pub trace_of : InboundMessage → String
trace_of m = append "conversation:" m.message_id

abbrev pub reply_external_id : InboundMessage → String
reply_external_id m = append "piki-reply:" m.message_id

abbrev pub scope_of : InboundMessage → String → ConversationScope
scope_of m account = record {
  channel = m.channel;
  channel_account_id = account;
  conversation_id = m.conversation_id;
}

-- a reply of the database's first session, or the history to compose one from
pub data Before : Type 0 where
  replied : ConversationReply → Before
  history : List StoredMessage → Before

-- what one call takes of the clocks and of fresh identifiers
pub record Readings : Type 0 where
  pub conversation : ℕ
  pub inbound : ℕ
  pub outbound : ℕ
  pub now : ℕ
  pub clock : ℕ

-- the result, the tables and what was emitted
abbrev pub Outcome : Type 0
Outcome = Result ConversationReply × Db × List LifecycleRecord

module _ (normalize : String → String) where
  abbrev pub stored_reply : ℕ → InboundMessage → StoredMessage → ConversationReply
  stored_reply conversation m existing = record {
    conversation_id = conversation;
    text = or_empty existing.content_text;
    intent = resolve normalize (or_empty m.text);
    trace_id = existing.trace_id;
    used_fallback = false;
    is_duplicate = true;
  }

  abbrev pub read_history : ℕ → Db → Result Before
  read_history conversation db = recent_messages conversation 20 db >>= λ h. ok (history h)

  abbrev pub replay : ℕ → InboundMessage → StoredMessage → Result Before
  replay conversation m existing =
      validate_reply (stored_reply conversation m existing) >>= λ r. ok (replied r)

  abbrev pub look_up : ℕ → InboundMessage → Option StoredMessage → Db → Result Before
  look_up conversation m none db = read_history conversation db
  look_up conversation m (some existing) db =
      if truthy? existing.content_text
      then replay conversation m existing
      else read_history conversation db

  -- the first session of `respond_persisted`
  unfoldable pub persisted_block : ℕ → InboundMessage → Block Before
  persisted_block conversation m db = find_message (reply_external_id m) db >>= λ existing.
      look_up conversation m existing db >>= λ b. ok (b, db)

  abbrev pub not_ready : Result Before
  not_ready = err (conversation_busy "duplicate message reply is not ready")

  abbrev pub look_up_duplicate : ℕ → InboundMessage → Option StoredMessage → Result Before
  look_up_duplicate conversation m none = not_ready
  look_up_duplicate conversation m (some existing) =
      if truthy? existing.content_text then replay conversation m existing else not_ready

  abbrev pub after_inbound : InboundMessage → PersistedInbound → Db → Result (ℕ × Before)
  after_inbound m p db = elim p.status [
    | duplicate ↦ find_message (reply_external_id m) db >>= λ existing.
        look_up_duplicate p.conversation_id m existing >>= λ b. ok (p.conversation_id, b)
    | created ↦ read_history p.conversation_id db >>= λ b. ok (p.conversation_id, b)
  ]

  -- the first session of `_respond_locked`
  unfoldable pub locked_block : Readings → String → InboundMessage → Block (ℕ × Before)
  locked_block t account m db =
      record_inbound t.conversation t.inbound t.now t.clock account m (trace_of m) false db >>= λ p.
      after_inbound m p.0 p.1 >>= λ b. ok (b, p.1)

  abbrev pub new_reply : ℕ → InboundMessage → String → Bool → ConversationReply
  new_reply conversation m text used_fallback = record {
    conversation_id = conversation;
    text = text;
    intent = resolve normalize (or_empty m.text);
    trace_id = trace_of m;
    used_fallback = used_fallback;
    is_duplicate = false;
  }

  abbrev pub after_outbound :
      ℕ → InboundMessage → String → Bool → List LifecycleRecord → Result (Unit {0}) × Db → Outcome
  after_outbound conversation m text used_fallback events (err e, db) = (err e, db, events)
  after_outbound conversation m text used_fallback events (ok _, db) =
      (validate_reply (new_reply conversation m text used_fallback), db, events)

  unfoldable pub outbound_block : Readings → ℕ → InboundMessage → String → Block (Unit {0})
  outbound_block t conversation m text db =
      record_outbound t.outbound t.now conversation text (trace_of m) (reply_external_id m) db
      >>= λ o. ok (tt, o.1)

  abbrev pub after_composed :
      Readings
      → ℕ
      → InboundMessage
      → List LifecycleRecord
      → Result (String × Bool) × Db × List LifecycleRecord
      → Outcome
  after_composed t conversation m events (err e, db, more) = (err e, db, events ++ more)
  after_composed t conversation m events (ok (text, used_fallback), db, more) =
      after_outbound conversation m text used_fallback (events ++ more)
        (session (outbound_block t conversation m text) db)

  -- what is emitted once the intent is known
  abbrev pub resolved_event : Readings → InboundMessage → Result LifecycleRecord
  resolved_event t m =
      emit t.now intent_resolved (trace_of m) (intent_value (resolve normalize (or_empty m.text)))
        EventOutcome.succeeded none none none none

  abbrev pub after_resolved :
      Composer
      → Readings
      → ℕ
      → InboundMessage
      → List StoredMessage
      → Db
      → Result LifecycleRecord
      → Outcome
  after_resolved c t conversation m h db (err e) = (err e, db, [])
  after_resolved c t conversation m h db (ok event) = after_composed t conversation m (event ∷ []) (
      c.compose (resolve normalize (or_empty m.text)) (or_empty m.text) (trace_of m) conversation h
        m.message_id db)

  -- compose a reply and store it
  unfoldable pub compose_and_store :
      Composer → Readings → ℕ → InboundMessage → List StoredMessage → Db → Outcome
  unfolding outbound_block emit
  compose_and_store c t conversation m h db =
      after_resolved c t conversation m h db (resolved_event t m)

  abbrev pub continue : Composer → Readings → ℕ → InboundMessage → Result Before × Db → Outcome
  continue c t conversation m (err e, db) = (err e, db, [])
  continue c t conversation m (ok (replied r), db) = (ok r, db, [])
  continue c t conversation m (ok (history h), db) = compose_and_store c t conversation m h db

  abbrev pub continue_with :
      Composer → Readings → InboundMessage → Result (ℕ × Before) × Db → Outcome
  continue_with c t m (err e, db) = (err e, db, [])
  continue_with c t m (ok (conversation, b), db) = continue c t conversation m (ok b, db)

  -- the body of `respond_persisted` under the lock
  unfoldable pub persisted_body : Composer → Readings → ℕ → InboundMessage → Db → Outcome
  unfolding persisted_block compose_and_store session
  persisted_body c t conversation m db =
      continue c t conversation m (session (persisted_block conversation m) db)

  -- `_respond_locked`
  unfoldable pub respond_locked : Composer → Readings → String → InboundMessage → Db → Outcome
  unfolding locked_block compose_and_store session
  respond_locked c t account m db = continue_with c t m (session (locked_block t account m) db)
