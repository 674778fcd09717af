-- ===== src/Conversations/Idempotence.antt =====
-- Recording the same message twice with `ConversationRepository` of src/piki/db/conversations.py.
use buenpick_piki.Base.{
  ℕ, String, ◌≡◌, refl, Bool, true, false, Option, none, some, [], ◌∷◌, ◌++◌, ◌==◌, any, ◌∙◌, inl,
  inr, Bool-cases, sym,
}
use mathlib.Core.Path.{subst}
use buenpick_piki.Base.Failure.{ok}
use buenpick_piki.Sql.Laws.{find, find-none, find_of_any}
use buenpick_piki.Domain.Messages.{InboundMessage}
use buenpick_piki.Db.Models.{Db, MessageRecord, has_conversation}
use buenpick_piki.Conversations.Store.{
  created, duplicate, PersistedInbound, StoredMessage, external_is, inbound_row, insert_message,
  persisted, record_inbound, stored_message, stored_or_none, find_conversation_id, find_message,
}
use buenpick_piki.Conversations.Recording.{
  OneExternal, seen_before, found_message, inserted, insert_message_lem, inserted_finds,
  inserted-OneExternal, Upserted, upserts,
}

module _ (conversation message now clock : ℕ) (account : String) (m : InboundMessage)
    (trace_id : String) (enqueue : Bool) (db : Db) where
  abbrev row : ℕ → MessageRecord
  row i = inbound_row message now clock i trace_id enqueue m

  abbrev stored : Bool → ℕ → Db → Option MessageRecord × Db
  stored seen i d = inserted seen (row i) d

  recorded :
      (u : ℕ × Db)
      → any (λ r. r.id == message) db.messages ≡ false
      → Upserted conversation now account m db u
      → record_inbound conversation message now clock account m trace_id enqueue db
        ≡ ok (
          persisted u.0 (stored (any (external_is m.message_id) db.messages) u.0 u.1).0,
          (stored (any (external_is m.message_id) db.messages) u.0 u.1).1,
        )
  unfolding record_inbound
  recorded u fresh up =
      let (is, same, conv, found) = up in
      let put : insert_message (row u.0) m.message_id u.1
          ≡ ok (stored (any (external_is m.message_id) u.1.messages) u.0 u.1) =
        insert_message_lem (row u.0) m.message_id u.1
          (subst (λ rows. any (λ r. r.id == message) rows ≡ false) (sym same) fresh) conv in
      rw (is, put, same) refl

  -- what is left of a message that may have been seen
  abbrev pub Recorded : Option StoredMessage → PersistedInbound → Db → Type 0
  Recorded none p db' =
      (p.status ≡ created)
      × (p.message_id ≡ some message)
      × (db'.messages ≡ db.messages ++ row p.conversation_id ∷ [])
      × (find_message m.message_id db' ≡ ok (some (stored_message (row p.conversation_id))))
  Recorded (some s) p db' =
      (p.status ≡ duplicate)
      × (p.message_id ≡ none)
      × (db'.messages ≡ db.messages)
      × (find_message m.message_id db' ≡ ok (some s))

  abbrev Outcome : Option StoredMessage → PersistedInbound × Db → Type 0
  Outcome earlier o =
      (record_inbound conversation message now clock account m trace_id enqueue db ≡ ok o)
      × (find_conversation_id m.channel account m.conversation_id o.1 ≡ some o.0.conversation_id)
      × OneExternal o.1
      × Recorded earlier o.0 o.1

  module _ (u : ℕ × Db) (up : Upserted conversation now account m db u)
      (fresh : any (λ r. r.id == message) db.messages ≡ false) (one_external : OneExternal db) where
    one_after : OneExternal u.1
    one_after e = rw up.1 (one_external e)

    finds_none :
        any (external_is m.message_id) db.messages ≡ false
        → find (external_is m.message_id) (inserted false (row u.0) u.1).1.messages ≡ some (row u.0)
    finds_none h = inserted_finds (row u.0) m.message_id u.1 refl false (rw up.1 h)

    one_new :
        any (external_is m.message_id) db.messages ≡ false
        → OneExternal (inserted false (row u.0) u.1).1
    one_new h = inserted-OneExternal (row u.0) m.message_id u.1 refl false (rw up.1 h) one_after

    first_time :
        any (external_is m.message_id) db.messages ≡ false
        → (o : PersistedInbound × Db) × Outcome none o
    unfolding find_conversation_id
    first_time h = (
      (persisted u.0 (some (row u.0)), (inserted false (row u.0) u.1).1),
      (
        subst
            (λ b.
              record_inbound conversation message now clock account m trace_id enqueue db
              ≡ ok (persisted u.0 (stored b u.0 u.1).0, (stored b u.0 u.1).1))
            h (recorded u fresh up),
        up.3,
        one_new h,
        (
          refl,
          refl,
          rw up.1 refl,
          found_message m.message_id (inserted false (row u.0) u.1).1 (one_new h)
              ∙ rw (finds_none h) refl,
        ),
      ),
    )

    another_time :
        (r : MessageRecord)
        → any (external_is m.message_id) db.messages ≡ true
        → find (external_is m.message_id) db.messages ≡ some r
        → (o : PersistedInbound × Db) × Outcome (some (stored_message r)) o
    another_time r h f = (
      (persisted u.0 none, u.1),
      (
        subst
            (λ b.
              record_inbound conversation message now clock account m trace_id enqueue db
              ≡ ok (persisted u.0 (stored b u.0 u.1).0, (stored b u.0 u.1).1))
            h (recorded u fresh up),
        up.3,
        one_after,
        (refl, refl, up.1, found_message m.message_id u.1 one_after ∙ rw (up.1, f) refl),
      ),
    )

  by_row :
      any (λ r. r.id == message) db.messages ≡ false
      → OneExternal db
      → (u : ℕ × Db) → Upserted conversation now account m db u
      → (o : PersistedInbound × Db) × Outcome
          (stored_or_none (find (external_is m.message_id) db.messages))
          o
  by_row fresh one_external u up = elim (Bool-cases (any (external_is m.message_id) db.messages)) [
    | inl e ↦
        let (r, f) = find_of_any (external_is m.message_id) db.messages e in
        rw f (another_time u up fresh one_external r e f)
    | inr e ↦
        rw (find-none (external_is m.message_id) db.messages e)
          (first_time u up fresh one_external e)
  ]

  -- With fresh identifiers, in tables where external message identifiers are unique,
  -- `record_inbound` succeeds and keeps them unique; the returned conversation is the one of the
  -- message's channel identity; a new message is stored and found with its fields, a known one is
  -- reported as a duplicate and the messages stay as they were.
  pub record_inbound_once :
      (earlier : Option StoredMessage)
      → has_conversation conversation db ≡ false
      → any (λ r. r.id == message) db.messages ≡ false
      → OneExternal db
      → find_message m.message_id db ≡ ok earlier
      → (o : PersistedInbound × Db) × Outcome earlier o
  record_inbound_once earlier new_c new_m one_external h =
      let (u, up) = upserts conversation now account m db new_c in
      subst (λ s. (o : PersistedInbound × Db) × Outcome s o)
        (sym (seen_before earlier m.message_id db one_external h)) (by_row new_m one_external u up)
