-- ===== src/Ingress/Known.antt =====
-- A message that the tables know, for src/piki/integrations/meta/ingress.py: recording it again
-- changes no message.
use buenpick_piki.Base.{
  ℕ, String, ◌≡◌, refl, Bool, true, false, none, List, [], ◌∷◌, ◌++◌, any, eq_refl, if◌then◌else◌,
  arith, inl, inr, Bool-cases, Option-cases, ◌⊎◌,
}
use buenpick_piki.Base.Failure.{ok}
use buenpick_piki.Sql.{update, insert_or_nothing}
use buenpick_piki.Sql.Laws.{find, find_of_any, find-passes, any-append, any-update, any_of_find}
use buenpick_piki.Domain.Messages.{Channel, InboundMessage}
use buenpick_piki.Db.Models.{Db, MessageRecord, ConversationRecord}
use buenpick_piki.Conversations.Recording.{identity_self}
use buenpick_piki.Conversations.Store.{
  PersistedInbound, duplicate, record_inbound, upsert, upsert_conversation, insert_message,
  inbound_row, external_is, identity_is, touch, new_conversation, persisted,
}

abbrev pub Known : String → InboundMessage → Db → Type 0
Known account m db =
    (any (external_is m.message_id) db.messages ≡ true)
    × (any (identity_is m.channel account m.conversation_id) db.conversations ≡ true)

-- what a step that only adds and touches rows leaves
pub record Grows (db db' : Db) : Type 0 where
  pub messages_kept :
      (e : String)
      → any (external_is e) db.messages ≡ true
      → any (external_is e) db'.messages ≡ true
  pub conversations_kept :
      (c : Channel) (a e : String)
      → any (identity_is c a e) db.conversations ≡ true
      → any (identity_is c a e) db'.conversations ≡ true

pub Known-Grows :
    {db db' : Db} (account : String) (m : InboundMessage)
    → Grows db db'
    → Known account m db
    → Known account m db'
Known-Grows account m g k =
    (g.messages_kept m.message_id k.0, g.conversations_kept m.channel account m.conversation_id k.1)

any-more {ℓ} :
    {R : Type ℓ} (p : R → Bool) (xs : List R) (y : R)
    → any p xs ≡ true
    → any p (xs ++ y ∷ []) ≡ true
any-more p xs y h = rw (any-append p xs y, h) refl

any-last {ℓ} :
    {R : Type ℓ} (p : R → Bool) (xs : List R) (y : R) → p y ≡ true → any p (xs ++ y ∷ []) ≡ true
any-last p xs y h = rw (any-append p xs y, h) (both (any p xs))
  where
    both : (b : Bool) → (if b then true else true) ≡ true
    both true = refl
    both false = refl

module _ (conversation message now clock : ℕ) (account : String) (m : InboundMessage)
    (trace_id : String) (enqueue : Bool) (db : Db) where
  abbrev identity : ConversationRecord → Bool
  identity = identity_is m.channel account m.conversation_id

  abbrev row : ℕ → MessageRecord
  row i = inbound_row message now clock i trace_id enqueue m

  abbrev touched_rows : List ConversationRecord
  touched_rows = update identity (touch now) db.conversations

  abbrev added_rows : List ConversationRecord
  added_rows = db.conversations ++ new_conversation conversation now account m ∷ []

  -- the tables after a message that was known
  abbrev pub touched_db : Db
  touched_db = record db { conversations = touched_rows }

  -- the two halves of the effect
  abbrev pub Effect : PersistedInbound × Db → Type 0
  Effect o =
      (((any identity db.conversations ≡ true) × (o.1.conversations ≡ touched_rows))
        ⊎ (o.1.conversations ≡ added_rows))
      × (((any (external_is m.message_id) db.messages ≡ true)
            × (o.1.messages ≡ db.messages)
            × (o.0.status ≡ duplicate))
          ⊎ ((i : ℕ) × (o.1.messages ≡ db.messages ++ row i ∷ [])))

  pub record-Effect :
      (o : PersistedInbound × Db)
      → record_inbound conversation message now clock account m trace_id enqueue db ≡ ok o
      → Effect o
  unfolding record_inbound upsert_conversation upsert insert_message insert_or_nothing
  record-Effect o h = elim (Option-cases (find identity db.conversations)) [
    | inl e ↦ elim (Bool-cases (any (external_is m.message_id) db.messages)) [
      | inl s ↦ (inr (ground arith), inl (ground arith))
      | inr s ↦ (inr (ground arith), inr (conversation, ground arith))
    ]
    | inr (c, e) ↦ elim (Bool-cases (any (external_is m.message_id) db.messages)) [
      | inl s ↦ (
        inl (
          any_of_find identity identity db.conversations c e
              (find-passes identity db.conversations c e),
          ground arith,
        ),
        inl (ground arith),
      )
      | inr s ↦ (
        inl (
          any_of_find identity identity db.conversations c e
              (find-passes identity db.conversations c e),
          ground arith,
        ),
        inr (c.id, ground arith),
      )
    ]
  ]

  pub Known-again :
      Known account m db
      → (p : PersistedInbound) × (p.status ≡ duplicate)
        × (record_inbound conversation message now clock account m trace_id enqueue db
            ≡ ok (p, touched_db))
  unfolding record_inbound upsert_conversation upsert insert_message insert_or_nothing
  Known-again k =
      let (c, e) = find_of_any identity db.conversations k.1 in
      (persisted c.id none, refl, rw (e, k.0) refl)

  Effect-Grows : (o : PersistedInbound × Db) → Effect o → Grows db o.1
  Effect-Grows o (c, w) = record {
    messages_kept = λ e h. elim w [
      | inl (_, same, _) ↦ rw same h
      | inr (i, more) ↦ rw more (any-more (external_is e) db.messages (row i) h)
    ];
    conversations_kept = λ ch a e h. elim c [
      | inl (_, same) ↦
          rw
            (
              same,
              any-update (identity_is ch a e) identity (touch now) db.conversations (λ r. refl),
            )
            h
      | inr more ↦ rw more (any-more (identity_is ch a e) db.conversations _ h)
    ];
  }

  Effect-Known : (o : PersistedInbound × Db) → Effect o → Known account m o.1
  Effect-Known o (c, w) = (
    elim w [
      | inl (there, same, _) ↦ rw same there
      | inr (i, more) ↦
          rw more (any-last (external_is m.message_id) db.messages (row i) (eq_refl m.message_id))
    ],
    elim c [
      | inl (there, same) ↦
          rw (same, any-update identity identity (touch now) db.conversations (λ r. refl)) there
      | inr more ↦
          rw more
            (any-last identity db.conversations _ (identity_self conversation now account m db))
    ],
  )

  -- a message that is recorded is known, and so is what was known before
  pub recorded-Known :
      (o : PersistedInbound × Db)
      → record_inbound conversation message now clock account m trace_id enqueue db ≡ ok o
      → Known account m o.1 × Grows db o.1
  recorded-Known o h = (Effect-Known o (record-Effect o h), Effect-Grows o (record-Effect o h))

  pub again-Grows : Grows db touched_db
  again-Grows = record {
    messages_kept = λ e h. h;
    conversations_kept = λ ch a e h.
        rw (any-update (identity_is ch a e) identity (touch now) db.conversations (λ r. refl)) h;
  }
