-- ===== src/Conversation/Composed.antt =====
-- What `_compose_reply` of src/piki/conversation/service.py leaves and says: messages and
-- conversations stay, a search that failed is told as such, and an empty text has no reply.
use buenpick_piki.Base.{
  ◌∷◌, ℕ, ◌≡◌, refl, String, Bool, Option, none, List, [], ◌++◌, ◌==◌, not, is_some, fits, ap, ◌∙◌,
}
use buenpick_piki.Base.Failure.{Failure, Result, ok, err}
use buenpick_piki.Sql.{update, insert_or_nothing, ◌>>=◌}
use buenpick_piki.Sql.Laws.{any-update}
use buenpick_piki.Domain.Tools.{ContextPacket, validate_packet}
use buenpick_piki.Observability.{LifecycleRecord}
use buenpick_piki.Db.Models.{Db, has_conversation, HandoffRecord}
use buenpick_piki.Db.Session.{session}
use buenpick_piki.Handoffs.Store.{
  HandoffRequest, request, validate_handoff_request, earlier, conflicts, requested_row, persisted,
  conversation_is, wants_human, PersistedHandoff,
}
use buenpick_piki.Conversations.Store.{StoredMessage, find_message}
use buenpick_piki.BuenPick.Models.{PickSearchResponse, Answer}
use buenpick_piki.Composition.Patterns.{Unicode}
use buenpick_piki.Composition.Engine.{CompositionRequest, Composed, ConversationTurn}
use buenpick_piki.Conversation.Intents.{
  ConversationIntent, greeting, discover_picks, human_handoff, explain_buenpick, resolve,
}
use buenpick_piki.Conversation.Compose.{
  ComposeReadings, compose_reply, composer, turns_of, handoff_block, handoff_request, after_handoff,
  by_intent, with_turns, explain,
}
use buenpick_piki.Composition.Policies.{get_policy, context_packet}
use buenpick_piki.Domain.Messages.{InboundMessage}
use buenpick_piki.Conversation.Service.{
  Composer, Readings, reply_external_id, trace_of, or_empty, resolved_event, after_resolved,
  persisted_body, compose_and_store, after_composed,
}
use buenpick_piki.Conversation.Stable.{KeepsMessages, history_read, body_composes}

-- the rows that a request for a human leaves
abbrev Kept : Db → Db → Type 0
Kept db db' =
    (db'.messages ≡ db.messages) × ((j : ℕ) → has_conversation j db' ≡ has_conversation j db)

abbrev left_of {ℓ} : {A : Type ℓ} → Db → Result (A × Db) → Db
left_of db (ok o) = o.1
left_of db (err e) = db

marks-Kept :
    (i now : ℕ) (rows : List HandoffRecord) (db : Db)
    → Kept db (record db {
      handoffs = rows;
      conversations = update (conversation_is i) (wants_human now) db.conversations;
    })
unfolding has_conversation
marks-Kept i now rows db = (
  refl,
  λ j.
      any-update (λ c. c.id == j) (conversation_is i) (wants_human now) db.conversations
        (λ c. refl),
)

module _ (t : ComposeReadings) (r : HandoffRequest) (db : Db) where
  found-Kept :
      (rows : List HandoffRecord) (created : Bool) (row : Result HandoffRecord)
      → Kept db (
          left_of db (
            row >>= λ h. ok (
              persisted h created,
              record db {
                handoffs = rows;
                conversations =
                    update (conversation_is r.conversation_id) (wants_human t.now) db.conversations;
              },
            )))
  found-Kept rows created (ok h) = marks-Kept r.conversation_id t.now rows db
  found-Kept rows created (err e) = (refl, λ j. refl)

  inserted-Kept :
      (ins : Result (Option HandoffRecord × List HandoffRecord))
      → Kept db (
          left_of db (
            ins >>= λ s. earlier r s.0 s.1 >>= λ h. ok (
              persisted h (is_some s.0),
              record db {
                handoffs = s.1;
                conversations =
                    update (conversation_is r.conversation_id) (wants_human t.now) db.conversations;
              },
            )))
  inserted-Kept (ok s) = found-Kept s.1 (is_some s.0) (earlier r s.0 s.1)
  inserted-Kept (err e) = (refl, λ j. refl)

  request-Kept : Kept db (left_of db (request t.handoff t.now r db))
  unfolding request
  request-Kept = inserted-Kept (
      insert_or_nothing (conflicts (requested_row t.handoff t.now r) db.handoffs)
        (not (has_conversation r.conversation_id db)) (requested_row t.handoff t.now r) db.handoffs)

  session-Kept :
      (x : Result (PersistedHandoff × Db))
      → Kept db (left_of db x)
      → Kept db (session {A = Unit {0}} (λ d. x >>= λ o. ok (tt, o.1)) db).1
  unfolding session
  session-Kept (ok o) k = k
  session-Kept (err e) k = k

run-Kept :
    (t : ComposeReadings) (db : Db) (v : Result HandoffRequest)
    → Kept db
        (session {A = Unit {0}}
          (λ d. v >>= λ r. request t.handoff t.now r d >>= λ o. ok (tt, o.1))
          db).1
unfolding session
run-Kept t db (ok r) = session-Kept t r db (request t.handoff t.now r db) (request-Kept t r db)
run-Kept t db (err e) = (refl, λ j. refl)

module _ (u : Unicode) (system_prompt : String) (render : ContextPacket → String)
    (adapter : CompositionRequest → Result Composed) (casefold : String → String)
    (search : Option (String → Result (Answer PickSearchResponse))) (t : ComposeReadings) where
  abbrev Composition : Type 0
  Composition = Result (String × Bool) × Db × List LifecycleRecord

  handoff-Kept :
      (q tr : String) (turns : List ConversationTurn) (db : Db) (done : Result (Unit {0}) × Db)
      → Kept db done.1
      → Kept db (after_handoff u system_prompt render adapter casefold search t q tr turns done).1
  handoff-Kept q tr turns db (ok _, db') k = k
  handoff-Kept q tr turns db (err e, db') k = k

  intent-Kept :
      (i : ConversationIntent) (q tr : String) (n : ℕ) (turns : List ConversationTurn) (e : String)
      (db : Db)
      → Kept db (by_intent u system_prompt render adapter casefold search t i q tr n turns e db).1
  unfolding handoff_block
  intent-Kept human_handoff q tr n turns e db =
      handoff-Kept q tr turns db _
        (run-Kept t db (validate_handoff_request (handoff_request tr n e)))
  intent-Kept discover_picks q tr n turns e db = (refl, λ j. refl)
  intent-Kept greeting q tr n turns e db = (refl, λ j. refl)
  intent-Kept explain_buenpick q tr n turns e db = (refl, λ j. refl)

  turns-Kept :
      (i : ConversationIntent) (q tr : String) (n : ℕ) (e : String) (db : Db)
      (turns : Result (List ConversationTurn))
      → Kept db (with_turns u system_prompt render adapter casefold search t i q tr n e db turns).1
  turns-Kept i q tr n e db (ok turns) = intent-Kept i q tr n turns e db
  turns-Kept i q tr n e db (err x) = (refl, λ j. refl)

  abbrev composes : Composer
  composes = composer u system_prompt render adapter casefold search t

  -- `_compose_reply`, whatever the intent, the model and the client answer, and whether it returns
  -- or raises, leaves the messages as they were and a conversation under the same identifiers.
  pub composer-KeepsMessages : KeepsMessages composes
  unfolding compose_reply
  composer-KeepsMessages = record {
    same_messages = λ i q tr n h e db. (turns-Kept i q tr n e db (turns_of h)).0;
    same_conversations = λ i q tr n h e db j. (turns-Kept i q tr n e db (turns_of h)).1 j;
  }

  no_words :
      (tr : String) (n : ℕ) (e : String) (db : Db) (turns : Result (List ConversationTurn))
      → (x : Failure) × (with_turns u system_prompt render adapter casefold search t
            explain_buenpick "" tr n e db turns
          ≡ (err x, db, []))
  unfolding explain context_packet validate_packet get_policy fits
  no_words tr n e db (ok turns) = (_, refl)
  no_words tr n e db (err x) = (x, refl)

  still_raises :
      (normalize : String → String) (t' : Readings) (conversation : ℕ) (m : InboundMessage)
      (h : List StoredMessage) (db : Db) (x : Failure) (emitted : Result LifecycleRecord)
      → composes.compose
          (resolve normalize (or_empty m.text))
          (or_empty m.text)
          (trace_of m)
          conversation
          h
          m.message_id
          db
        ≡ (err x, db, [])
      → (y : Failure) × (ev : List LifecycleRecord) × (after_resolved normalize composes t'
            conversation m h db emitted
          ≡ (err y, db, ev))
  unfolding compose_reply
  still_raises normalize t' conversation m h db x (err e) fails = (e, [], refl)
  still_raises normalize t' conversation m h db x (ok e) fails =
      (x, (e ∷ []) ++ [], ap (after_composed normalize t' conversation m (e ∷ [])) fails)

  -- Where the empty text has no intent of its own and no reply is stored, the worker's body for a
  -- message without text raises and leaves the tables as they were.
  pub textless_unanswered :
      (normalize : String → String) (t' : Readings) (conversation : ℕ) (m : InboundMessage)
      (db : Db)
      → m.text ≡ none
      → resolve normalize "" ≡ explain_buenpick
      → find_message (reply_external_id m) db ≡ ok none
      → (x : Failure) × (ev : List LifecycleRecord) × (persisted_body normalize composes t'
            conversation m db
          ≡ (err x, db, ev))
  unfolding compose_and_store compose_reply
  textless_unanswered normalize t' conversation m db no_text explains unknown =
      let (h, read) = history_read normalize conversation m db in
      let empty : or_empty m.text ≡ "" = rw no_text refl in
      let (x, fails) = no_words (trace_of m) conversation m.message_id db (turns_of h) in
      let (y, ev, raises) =
        still_raises normalize t' conversation m h db x (resolved_event normalize t' m) (
          ap
            (λ q.
              composes.compose (resolve normalize q) q (trace_of m) conversation h m.message_id db)
            empty
          ∙ ap (λ i. composes.compose i "" (trace_of m) conversation h m.message_id db) explains
          ∙ fails) in
      (y, ev, body_composes normalize conversation m composes t' db h unknown read ∙ raises)
