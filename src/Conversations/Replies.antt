-- ===== src/Conversations/Replies.antt =====
-- Storing a reply with `record_outbound` of src/piki/db/conversations.py, once and again.
use buenpick_piki.Base.{
  ℕ, String, ◌≡◌, refl, true, false, Option, none, some, [], ◌∷◌, ◌++◌, ◌==◌, any, ◌∙◌, inl, inr,
  Bool-cases, sym,
}
use mathlib.Core.Path.{subst}
use buenpick_piki.Base.Failure.{ok}
use buenpick_piki.Sql.{one, insert_or_nothing}
use buenpick_piki.Sql.Laws.{find, any_of_find, find-none, find_of_any, find-passes, select_of_count}
use buenpick_piki.Db.Models.{Db, MessageRecord, has_conversation}
use buenpick_piki.Conversations.Store.{
  PersistedOutbound, StoredMessage, external_is, insert_message, stored_message, stored_or_none,
  outbound_row, outbound_stored, record_outbound, find_message,
}
use buenpick_piki.Conversations.Recording.{
  OneExternal, seen_before, found_message, inserted, insert_message_lem, inserted_finds,
  inserted-OneExternal,
}

-- a reply whose identifier is taken is the row that has it
known_reply :
    (message now conversation : ℕ) (text trace_id external : String) (db : Db) (r : MessageRecord)
    → OneExternal db
    → find (external_is external) db.messages ≡ some r
    → record_outbound message now conversation text trace_id external db
      ≡ ok (record { message_id = r.id; created = false }, db)
unfolding record_outbound insert_message insert_or_nothing outbound_stored one
known_reply message now conversation text trace_id external db r one_external h =
    rw
      (
        any_of_find (external_is external) (external_is external) db.messages r h
            (find-passes (external_is external) db.messages r h),
        select_of_count (external_is external) db.messages (one_external external),
        h,
      )
      refl

module _ (message now conversation : ℕ) (text trace_id external : String) (db : Db) where
  abbrev row : MessageRecord
  row = outbound_row message now conversation text trace_id external

  -- The reply that the identifier names afterwards, and that it was stored earlier or now.
  abbrev pub Replied : Option StoredMessage → PersistedOutbound → Db → Type 0
  Replied none p db' =
      (p ≡ record { message_id = message; created = true })
      × (db'.messages ≡ db.messages ++ row ∷ [])
      × (find_message external db' ≡ ok (some (stored_message row)))
  Replied (some s) p db' =
      (p ≡ record { message_id = s.id; created = false })
      × (db' ≡ db)
      × (find_message external db' ≡ ok (some s))

  abbrev Outcome : Option StoredMessage → PersistedOutbound × Db → Type 0
  Outcome earlier o =
      (record_outbound message now conversation text trace_id external db ≡ ok o)
      × OneExternal o.1
      × Replied earlier o.0 o.1

  new_reply :
      any (λ r. r.id == message) db.messages ≡ false
      → has_conversation conversation db ≡ true
      → OneExternal db
      → any (external_is external) db.messages ≡ false
      → (o : PersistedOutbound × Db) × Outcome none o
  unfolding record_outbound outbound_stored
  new_reply fresh conv one_external h =
      let kept = inserted-OneExternal row external db refl false h one_external in
      (
        (record { message_id = message; created = true }, (inserted false row db).1),
        (
          rw (insert_message_lem row external db fresh conv, h) refl,
          kept,
          (
            refl,
            refl,
            found_message external (inserted false row db).1 kept
                ∙ rw (inserted_finds row external db refl false h) refl,
          ),
        ),
      )

  old_reply :
      (r : MessageRecord)
      → OneExternal db
      → find (external_is external) db.messages ≡ some r
      → (o : PersistedOutbound × Db) × Outcome (some (stored_message r)) o
  old_reply r one_external h = (
    (record { message_id = r.id; created = false }, db),
    (
      known_reply message now conversation text trace_id external db r one_external h,
      one_external,
      (refl, refl, found_message external db one_external ∙ rw h refl),
    ),
  )

  by_row :
      any (λ r. r.id == message) db.messages ≡ false
      → has_conversation conversation db ≡ true
      → OneExternal db
      → (o : PersistedOutbound × Db) × Outcome
          (stored_or_none (find (external_is external) db.messages))
          o
  by_row fresh conv one_external = elim (Bool-cases (any (external_is external) db.messages)) [
    | inl e ↦
        let (r, f) = find_of_any (external_is external) db.messages e in
        rw f (old_reply r one_external f)
    | inr e ↦
        rw (find-none (external_is external) db.messages e) (new_reply fresh conv one_external e)
  ]

  -- With a fresh identifier, an existing conversation and unique external identifiers,
  -- `record_outbound` succeeds and keeps them unique: a reply whose external identifier is unknown
  -- is stored and found, a known one leaves the database as it was and the stored message is
  -- returned.
  pub record_outbound_once :
      (earlier : Option StoredMessage)
      → any (λ r. r.id == message) db.messages ≡ false
      → has_conversation conversation db ≡ true
      → OneExternal db
      → find_message external db ≡ ok earlier
      → (o : PersistedOutbound × Db) × Outcome earlier o
  record_outbound_once earlier fresh conv one_external h =
      subst (λ s. (o : PersistedOutbound × Db) × Outcome s o)
        (sym (seen_before earlier external db one_external h)) (by_row fresh conv one_external)
