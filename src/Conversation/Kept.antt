-- ===== src/Conversation/Kept.antt =====
-- The row of a message while src/piki/conversation/worker.py answers it: nothing that it calls, before the
-- claim is settled, changes the row.
use buenpick_piki.Base.{
  ℕ, String, ◌≡◌, refl, Bool, true, false, not, ◌||◌, Option, some, List, [], ◌∷◌, ◌++◌, any, ◌==◌,
  ap, sym, ◌∙◌,
}
use mathlib.Core.Path.{subst}
use buenpick_piki.Base.Failure.{Result, ok, err}
use buenpick_piki.Sql.{insert_or_nothing, ◌>>=◌}
use buenpick_piki.Sql.Laws.{find, find-append, find-passes, any_of_find}
use buenpick_piki.Domain.Messages.{InboundMessage}
use buenpick_piki.Observability.{LifecycleRecord}
use buenpick_piki.Db.Models.{Db, MessageRecord, has_conversation}
use buenpick_piki.Db.Session.{session}
use buenpick_piki.Processing.Store.{message_is}
use buenpick_piki.Conversations.Store.{
  StoredMessage, insert_message, find_message, record_outbound, outbound_row, outbound_stored,
  external_is, PersistedOutbound,
}
use buenpick_piki.Conversation.Service.{
  Composer, Readings, Before, history, replied, look_up, persisted_block, persisted_body,
  compose_and_store, outbound_block, after_composed, after_outbound, continue, resolved_event,
  after_resolved, trace_of, reply_external_id, or_empty,
}
use buenpick_piki.Conversation.Intents.{resolve}
use buenpick_piki.Conversation.Stable.{KeepsMessages}

-- a message's row is there
abbrev pub Stands : ℕ → MessageRecord → Db → Type 0
Stands i m db = find (message_is i) db.messages ≡ some m

module _ (normalize : String → String) (i : ℕ) (m : MessageRecord) where
  append-Stands :
      (row : MessageRecord) (rows : List MessageRecord)
      → find (message_is i) rows ≡ some m
      → find (message_is i) (rows ++ row ∷ []) ≡ some m
  append-Stands row rows h =
      rw
        (
          find-append (message_is i) rows row,
          any_of_find (message_is i) (message_is i) rows m h (find-passes (message_is i) rows m h),
        )
        h

  abbrev left : {A : Type 0} → Db → Result (A × Db) → Db
  left db (ok o) = o.1
  left db (err e) = db

  committed : {A : Type 0} (db : Db) (x : Result (A × Db)) → (session (λ _. x) db).1 ≡ left db x
  unfolding session
  committed db (ok (a, db')) = refl
  committed db (err e) = refl

  session-left :
      {A : Type 0} (body : Db → Result (A × Db)) (db : Db) → (session body db).1 ≡ left db (body db)
  unfolding session
  session-left body db = committed db (body db)

  module _ (t : Readings) (conversation : ℕ) (message : InboundMessage) (text : String) (db : Db)
      (stands : Stands i m db) where
    abbrev row : MessageRecord
    row =
        outbound_row t.outbound t.now conversation text (trace_of message)
          (reply_external_id message)

    abbrev with_rows :
        Option MessageRecord × List MessageRecord → Result (Option MessageRecord × Db)
    with_rows s = ok (s.0, record db { messages = s.1 })

    -- what follows the insertion of the reply
    abbrev stores : Result (Option MessageRecord × List MessageRecord) → Result (Unit {0} × Db)
    stores x =
        x
        >>= with_rows
        >>= (λ (s : Option MessageRecord × Db). outbound_stored (reply_external_id message) s.0 s.1)
        >>= (λ (o : PersistedOutbound × Db). ok (tt, o.1))

    known-Stands :
        (db' : Db) (x : Result MessageRecord)
        → Stands i m db'
        → Stands i m (
            left db (
              x
              >>= (λ row. ok (record { message_id = row.id; created = false }, db'))
              >>= (λ (o : PersistedOutbound × Db). ok (tt {0}, o.1))))
    known-Stands db' (ok r) h = h
    known-Stands db' (err e) h = stands

    stores-Stands :
        (conflict violation : Bool)
        → Stands i m (left db (stores (insert_or_nothing conflict violation row db.messages)))
    unfolding insert_or_nothing outbound_stored
    stores-Stands true violation = known-Stands db _ stands
    stores-Stands false true = stands
    stores-Stands false false = append-Stands row db.messages stands

    outbound-Stands :
        Stands i m (session (outbound_block normalize t conversation message text) db).1
    unfolding outbound_block record_outbound insert_message
    outbound-Stands =
        let conflict = any (external_is (reply_external_id message)) db.messages in
        let violation =
          any (λ r. r.id == row.id) db.messages || not (has_conversation row.conversation_id db) in
        subst (Stands i m)
          (sym (session-left (outbound_block normalize t conversation message text) db))
          (stores-Stands conflict violation)

  module _ (c : Composer) (keeps : KeepsMessages c) (t : Readings) (conversation : ℕ)
      (message : InboundMessage) where
    stored-Stands :
        (text : String) (fallback : Bool) (events : List LifecycleRecord)
        (o : Result (Unit {0}) × Db)
        → Stands i m o.1
        → Stands i m (after_outbound normalize conversation message text fallback events o).1
    stored-Stands text fallback events (ok _, db) h = h
    stored-Stands text fallback events (err e, db) h = h

    composed-Stands :
        (events : List LifecycleRecord) (o : Result (String × Bool) × Db × List LifecycleRecord)
        → Stands i m o.1
        → Stands i m (after_composed normalize t conversation message events o).1
    composed-Stands events (err e, db, more) h = h
    composed-Stands events (ok (text, fallback), db, more) h =
        stored-Stands text fallback (events ++ more) _
          (outbound-Stands t conversation message text db h)

    resolved-Stands :
        (h : List StoredMessage) (db : Db) (x : Result LifecycleRecord)
        → Stands i m db
        → Stands i m (after_resolved normalize c t conversation message h db x).1
    resolved-Stands h db (err e) stands = stands
    resolved-Stands h db (ok e) stands = composed-Stands (e ∷ []) _ (
        ap (λ rows. find (message_is i) rows)
          (keeps.same_messages (resolve normalize (or_empty message.text)) (or_empty message.text)
            (trace_of message) conversation h message.message_id db)
        ∙ stands)

    compose-Stands :
        (h : List StoredMessage) (db : Db)
        → Stands i m db
        → Stands i m (compose_and_store normalize c t conversation message h db).1
    unfolding compose_and_store
    compose-Stands h db stands = resolved-Stands h db (resolved_event normalize t message) stands

    continued-Stands :
        (o : Result Before × Db)
        → Stands i m o.1
        → Stands i m (continue normalize c t conversation message o).1
    continued-Stands (err e, db) h = h
    continued-Stands (ok (replied r), db) h = h
    continued-Stands (ok (history ms), db) h = compose-Stands ms db h

    looked_up-Stands :
        (db : Db) (found : Result (Option StoredMessage)) (f : Option StoredMessage → Result Before)
        → Stands i m db
        → Stands i m (left db (found >>= (λ e. f e >>= (λ (b : Before). ok (b, db)))))
    looked_up-Stands db (err e) f h = h
    looked_up-Stands db (ok e) f h = read-Stands (f e)
      where
        read-Stands :
            (x : Result Before) → Stands i m (left db (x >>= (λ (b : Before). ok (b, db))))
        read-Stands (ok b) = h
        read-Stands (err e) = h

    pub body-Stands :
        (db : Db)
        → Stands i m db
        → Stands i m (persisted_body normalize c t conversation message db).1
    unfolding persisted_body persisted_block
    body-Stands db h =
        continued-Stands (session (persisted_block normalize conversation message) db) (
          subst (Stands i m)
            (sym (session-left (persisted_block normalize conversation message) db))
            (looked_up-Stands db (find_message (reply_external_id message) db)
              (λ e. look_up normalize conversation message e db) h))
