-- ===== src/Conversations/Recording.antt =====
-- What `ConversationRepository` of src/piki/db/conversations.py records: a message once, and its
-- conversation.
use buenpick_piki.Base.{
  ℕ, String, ◌≡◌, ◌≤◌, refl, Bool, true, false, ◌&&◌, Option, none, some, List, [], ◌∷◌, ◌++◌, ◌==◌,
  any, count, str_eq, eq_iff, eq_refl, if◌then◌else◌, arith, ◌∙◌, inl, inr, Bool-cases,
  Option-cases, sym,
}
use mathlib.Core.Path.{subst}
use buenpick_piki.Base.Failure.{ok}
use buenpick_piki.Sql.{◌>>=◌, update, insert_or_nothing, one_or_none}
use buenpick_piki.Sql.Laws.{
  find, eq_self, find-append, find-update, find-passes, any-append, any-update, any_of_find,
  count-append, count-eq-zero, select_of_count,
}
use buenpick_piki.Domain.Messages.{Channel, same_channel, InboundMessage}
use buenpick_piki.Db.Models.{Db, MessageRecord, ConversationRecord, has_conversation}
use buenpick_piki.Conversations.Store.{
  StoredMessage, identity_is, touch, new_conversation, upsert, upsert_conversation, external_is,
  insert_message, stored_or_none, find_conversation_id, find_message,
}

abbrev pub OneExternal : Db → Type 0
OneExternal db = (e : String) → count (external_is e) db.messages ≤ 1

-- `find_message` where external identifiers are unique
pub found_message :
    (external : String) (db : Db)
    → OneExternal db
    → find_message external db ≡ ok (stored_or_none (find (external_is external) db.messages))
unfolding find_message one_or_none
found_message external db one_external =
    rw (select_of_count (external_is external) db.messages (one_external external))
      (of_row (find (external_is external) db.messages))
  where
    of_row :
        (o : Option MessageRecord)
        → (one_or_none (elim o [ none ↦ [] | some r ↦ r ∷ [] ]) >>= λ row. ok (stored_or_none row))
          ≡ ok (stored_or_none o)
    of_row none = refl
    of_row (some r) = refl

pub seen_before :
    (earlier : Option StoredMessage) (external : String) (db : Db)
    → OneExternal db
    → find_message external db ≡ ok earlier
    → earlier ≡ stored_or_none (find (external_is external) db.messages)
seen_before earlier external db one_external h =
    ok_inj (sym h ∙ found_message external db one_external)
  where
    ok_inj : {A : Type 0} {a b : A} → ok a ≡ ok b → a ≡ b
    ok_inj h = cc

external-append :
    (external : String) (row : MessageRecord) (rows : List MessageRecord)
    → row.external_message_id ≡ some external
    → any (external_is external) rows ≡ false
    → ((e : String) → count (external_is e) rows ≤ 1)
    → (e : String) → count (external_is e) (rows ++ row ∷ []) ≤ 1
unfolding count
external-append external row rows h fresh one_external e = elim (Bool-cases (str_eq external e)) [
  | inl b ↦
      let same : external ≡ e = (eq_iff external e).0 b in
      let none_there : count (external_is e) rows ≡ 0 =
        subst (λ s. count (external_is s) rows ≡ 0) same (count-eq-zero _ rows fresh) in
      rw (count-append, h, none_there, b) (omega arith)
  | inr b ↦ rw (count-append, h, b) (omega (arith, one_external e))
]

-- the message's INSERT, by whether its external identifier is taken
abbrev pub inserted : Bool → MessageRecord → Db → Option MessageRecord × Db
inserted true row db = (none, db)
inserted false row db = (some row, record db { messages = db.messages ++ row ∷ [] })

pub insert_message_lem :
    (row : MessageRecord) (external : String) (db : Db)
    → any (λ r. r.id == row.id) db.messages ≡ false
    → has_conversation row.conversation_id db ≡ true
    → insert_message row external db ≡ ok (inserted (any (external_is external) db.messages) row db)
unfolding insert_message insert_or_nothing
insert_message_lem row external db fresh conv =
    elim (Bool-cases (any (external_is external) db.messages)) [
      | inl e ↦ rw e refl
      | inr e ↦ rw (e, fresh, conv) refl
    ]

-- after the INSERT the external identifier finds the earlier row, or the new one
pub inserted_finds :
    (row : MessageRecord) (external : String) (db : Db)
    → row.external_message_id ≡ some external
    → (seen : Bool) → any (external_is external) db.messages ≡ seen
    → find (external_is external) (inserted seen row db).1.messages
      ≡ (if seen then find (external_is external) db.messages else some row)
inserted_finds row external db h true s = refl
inserted_finds row external db h false s =
    rw (find-append (external_is external) db.messages row, s, h, eq_refl external) refl

pub inserted-OneExternal :
    (row : MessageRecord) (external : String) (db : Db)
    → row.external_message_id ≡ some external
    → (seen : Bool) → any (external_is external) db.messages ≡ seen
    → OneExternal db
    → OneExternal (inserted seen row db).1
inserted-OneExternal row external db h true s k = k
inserted-OneExternal row external db h false s k = external-append external row db.messages h s k

any-none {ℓ} : {R : Type ℓ} (p : R → Bool) (xs : List R) → find p xs ≡ none → any p xs ≡ false
unfolding find any
any-none p [] h = refl
any-none p (x ∷ xs) h = ground (arith, any-none p xs)

-- the conversation's INSERT … ON CONFLICT DO UPDATE
module _ (conversation now : ℕ) (account : String) (m : InboundMessage) (db : Db) where
  abbrev pub Upserted : ℕ × Db → Type 0
  Upserted u =
      (upsert_conversation conversation now account m db ≡ ok u)
      × (u.1.messages ≡ db.messages)
      × (has_conversation u.0 u.1 ≡ true)
      × (find_conversation_id m.channel account m.conversation_id u.1 ≡ some u.0)

  abbrev pub identity : ConversationRecord → Bool
  identity = identity_is m.channel account m.conversation_id

  pub identity_self : identity (new_conversation conversation now account m) ≡ true
  identity_self = rw (eq_refl account, eq_refl m.conversation_id) (channel_self m.channel)
    where
      channel_self : (c : Channel) → (same_channel c c && true && true) ≡ true
      channel_self c = ground arith

  conflict_updates :
      (c : ConversationRecord)
      → find identity db.conversations ≡ some c
      → Upserted (c.id, record db { conversations = update identity (touch now) db.conversations })
  unfolding upsert_conversation upsert has_conversation find_conversation_id
  conflict_updates c h = (
    ground (arith, h),
    refl,
    rw (any-update (λ r. r.id == c.id) identity (touch now) db.conversations (λ r. refl))
        (any_of_find identity (λ r. r.id == c.id) db.conversations c h (ground arith)),
    rw
        (
          find-update identity identity (touch now) db.conversations (λ r. refl),
          h,
          find-passes identity db.conversations c h,
        )
        refl,
  )

  no_conflict_inserts :
      has_conversation conversation db ≡ false
      → find identity db.conversations ≡ none
      → Upserted (
        conversation,
        record db {
          conversations = db.conversations ++ new_conversation conversation now account m ∷ [];
        },
      )
  unfolding upsert_conversation upsert has_conversation find_conversation_id
  no_conflict_inserts fresh h = (
    ground (arith, h),
    refl,
    rw any-append (ground (arith, eq_self conversation)),
    rw (find-append, any-none identity db.conversations h, identity_self) refl,
  )

  pub upserts : has_conversation conversation db ≡ false → (u : ℕ × Db) × Upserted u
  upserts fresh = elim (Option-cases (find identity db.conversations)) [
    | inl e ↦ (_, no_conflict_inserts fresh e)
    | inr (c, e) ↦ (_, conflict_updates c e)
  ]
