-- ===== src/Ingress/Again.antt =====
-- `ingest` of src/piki/integrations/meta/ingress.py on events that it has ingested before.
use buenpick_piki.Base.{
  ℕ, String, ◌≡◌, refl, Bool, true, List, [], ◌∷◌, length, any, not, ◌||◌, ◌≢◌, truthy?, arith, ◌∙◌,
  sym,
}
use mathlib.Core.Path.{subst}
use buenpick_piki.Base.Failure.{Failure, Result, ok, err}
use buenpick_piki.Domain.Messages.{InboundMessage}
use buenpick_piki.Meta.Status.{MetaStatusUpdate}
use buenpick_piki.Observability.{LifecycleRecord}
use buenpick_piki.Db.Models.{Db}
use buenpick_piki.Db.Session.{session}
use buenpick_piki.Coordination.Redis.{Redis, Link}
use buenpick_piki.Meta.Payload.{MetaWebhookEvents}
use buenpick_piki.Ingress.Service.{
  WebhookIngestResult, MessageReadings, CallbackReadings, Recorded, Counted, phone_number,
  record_messages, apply_statuses, claim_messages, World, after_statuses, after_claims,
  after_messages, ingest,
}
use buenpick_piki.Ingress.Redelivery.{
  AllKnown, AllKnown-Grows, recorded_all, known_all, statuses_rows,
}

abbrev nothing : Recorded
nothing = record { accepted = 0; duplicates = 0; durable = [] }

committed :
    (f : ℕ → MessageReadings) (ms : List InboundMessage) (db : Db) (o : Recorded × Db)
    → record_messages f 0 ms nothing db ≡ ok o
    → session (record_messages f 0 ms nothing) db ≡ (ok o.0, o.1)
unfolding session
committed f ms db o h = rw h refl

-- what a committed loop had answered
was_recorded :
    (f : ℕ → MessageReadings) (ms : List InboundMessage) (db : Db) (x : Result (Recorded × Db))
    (r : Recorded)
    → record_messages f 0 ms nothing db ≡ x
    → (session (record_messages f 0 ms nothing) db).0 ≡ ok r
    → record_messages f 0 ms nothing db ≡ ok (r, (session (record_messages f 0 ms nothing) db).1)
unfolding session
was_recorded f ms db (ok o) r e h = ground arith
was_recorded f ms db (err x) r e h = absurd (ground arith)

module _ (r : Redis) (sha256 : String → String) (ttl_seconds : ℕ) where
  abbrev Rows : Db → Db → Type 0
  Rows db db' = (db'.messages ≡ db.messages) × (db'.conversations ≡ db.conversations)

  statuses_keep :
      (m : Recorded) (w : World r sha256 ttl_seconds)
      (done : Result Counted × Db × List LifecycleRecord)
      → Rows w.db done.1
      → Rows w.db (after_statuses r sha256 ttl_seconds m w done).1.db
  statuses_keep m w (err e, db, events) h = h
  statuses_keep m w (ok c, db, events) h = h

  claims_keep :
      (g : ℕ → CallbackReadings) (ss : List MetaStatusUpdate) (m : Recorded)
      (w : World r sha256 ttl_seconds) (done : Result (Unit {0}) × r.State)
      → Rows w.db (after_claims r sha256 ttl_seconds g ss m w done).1.db
  claims_keep g ss m w (err e, s) = (refl, refl)
  claims_keep g ss m w (ok _, s) =
      statuses_keep m (record w { redis = s }) _
        (statuses_rows g 0 ss (record { accepted = 0; duplicates = 0; ignored = 0 }) w.db)

  -- the rest of `ingest` leaves the rows that the loop over the messages left
  messages_keep :
      (h : ℕ → Link × ℕ) (g : ℕ → CallbackReadings) (ss : List MetaStatusUpdate)
      (w : World r sha256 ttl_seconds) (done : Result Recorded × Db)
      → Rows done.1 (after_messages r sha256 ttl_seconds h g ss w done).1.db
  messages_keep h g ss w (err e, db) = (refl, refl)
  messages_keep h g ss w (ok m, db) =
      claims_keep g ss m (record w { db = db })
        (claim_messages r sha256 ttl_seconds h 0 m.durable w.redis)

  statuses_counts :
      (m : Recorded) (w : World r sha256 ttl_seconds)
      (done : Result Counted × Db × List LifecycleRecord) (res : WebhookIngestResult)
      → (after_statuses r sha256 ttl_seconds m w done).0 ≡ ok res
      → (res.accepted_messages ≡ m.accepted) × (res.duplicate_messages ≡ m.duplicates)
  statuses_counts m w (err e, db, events) res k = absurd (cc)
  statuses_counts m w (ok c, db, events) res k = ground arith

  claims_counts :
      (g : ℕ → CallbackReadings) (ss : List MetaStatusUpdate) (m : Recorded)
      (w : World r sha256 ttl_seconds) (done : Result (Unit {0}) × r.State)
      (res : WebhookIngestResult)
      → (after_claims r sha256 ttl_seconds g ss m w done).0 ≡ ok res
      → (res.accepted_messages ≡ m.accepted) × (res.duplicate_messages ≡ m.duplicates)
  claims_counts g ss m w (err e, s) res k = absurd (cc)
  claims_counts g ss m w (ok _, s) res k =
      statuses_counts m (record w { redis = s })
        (apply_statuses g 0 ss (record { accepted = 0; duplicates = 0; ignored = 0 }) w.db) res k

  answered :
      (h : ℕ → Link × ℕ) (g : ℕ → CallbackReadings) (ss : List MetaStatusUpdate)
      (w : World r sha256 ttl_seconds) (done : Result Recorded × Db) (res : WebhookIngestResult)
      → (after_messages r sha256 ttl_seconds h g ss w done).0 ≡ ok res
      → (m : Recorded) × (done.0 ≡ ok m)
  answered h g ss w (err e, db) res k = absurd (cc)
  answered h g ss w (ok m, db) res k = (m, refl)

  module _ (f f' : ℕ → MessageReadings) (h h' : ℕ → Link × ℕ) (g g' : ℕ → CallbackReadings)
      (events : MetaWebhookEvents) (w : World r sha256 ttl_seconds) where
    abbrev first : Result WebhookIngestResult × World r sha256 ttl_seconds
    first = ingest r sha256 ttl_seconds f h g events w

    abbrev second : Result WebhookIngestResult × World r sha256 ttl_seconds
    second = ingest r sha256 ttl_seconds f' h' g' events first.1

    abbrev Duplicates : Result WebhookIngestResult × World r sha256 ttl_seconds → Type 0
    Duplicates o =
        (o.1.db.messages ≡ first.1.db.messages)
        × ((res' : WebhookIngestResult)
            → o.0 ≡ ok res'
            → (res'.accepted_messages ≡ 0) × (res'.duplicate_messages ≡ length events.messages))

    abbrev recorded : Result Recorded × Db
    recorded = session (record_messages f 0 events.messages nothing) w.db

    all_known : (m : Recorded) → recorded.0 ≡ ok m → AllKnown events.messages first.1.db
    unfolding ingest
    all_known m k =
        let left =
          recorded_all f events.messages 0 nothing w.db (m, recorded.1)
            (was_recorded f events.messages w.db _ m refl k) in
        let (same, same') = messages_keep h g events.statuses w recorded in
        AllKnown-Grows events.messages {db = recorded.1} {db' = first.1.db}
          (record { messages_kept = λ e v. rw same v; conversations_kept = λ c a e v. rw same' v })
          left.0

    -- Where a webhook's events were ingested with a result, ingesting them again, with any clocks,
    -- identifiers and connections, leaves the messages as they are, and if it gives a result, that
    -- result counts no accepted message and every message as a duplicate.
    pub ingest_redelivered : (res : WebhookIngestResult) → first.0 ≡ ok res → Duplicates second
    unfolding ingest
    ingest_redelivered res k =
        let (m, is) = answered h g events.statuses w recorded res k in
        let (o, done, none_new, dups, same) =
          known_all f' events.messages 0 nothing first.1.db (all_known m is) in
        let left = committed f' events.messages first.1.db o done in
        subst
          (λ d. Duplicates (after_messages r sha256 ttl_seconds h' g' events.statuses first.1 d))
          (sym left)
          (
            (messages_keep h' g' events.statuses first.1 (ok o.0, o.1)).0 ∙ same,
            λ res' k'.
                let (a, b) =
                  claims_counts g' events.statuses o.0 (record first.1 { db = o.1 })
                    (claim_messages r sha256 ttl_seconds h' 0 o.0.durable first.1.redis) res' k' in
                (a ∙ none_new, b ∙ dups ∙ omega arith),
          )

some_missing :
    (ms : List InboundMessage) (db : Db)
    → any (λ m. not (truthy? (phone_number m))) ms ≡ true
    → AllKnown ms db
    → ⊥
unfolding any
some_missing [] db h v = absurd (cc)
some_missing (m ∷ ms) db h v = some_missing ms db (rest v.0.0 h) v.1
  where
    rest : {b c : Bool} → b ≡ true → (not b || c) ≡ true → c ≡ true
    rest h k = ground arith

-- a loop that raises is rolled back
rolled_back :
    (f : ℕ → MessageReadings) (ms : List InboundMessage) (db : Db) (x : Result (Recorded × Db))
    → record_messages f 0 ms nothing db ≡ x
    → ((o : Recorded × Db) → x ≢ ok o)
    → (e : Failure) × (session (record_messages f 0 ms nothing) db ≡ (err e, db))
unfolding session
rolled_back f ms db (ok o) h n = absurd (n o refl)
rolled_back f ms db (err e) h n = (e, rw h refl)

module _ (r : Redis) (sha256 : String → String) (ttl_seconds : ℕ) (f : ℕ → MessageReadings)
    (h : ℕ → Link × ℕ) (g : ℕ → CallbackReadings) (events : MetaWebhookEvents)
    (w : World r sha256 ttl_seconds) where
  -- Where a message of a webhook has no phone number identifier, or an empty one, `ingest` raises
  -- and leaves the database, Redis and the emitted records as they were.
  pub ingest_without_phone :
      any (λ m. not (truthy? (phone_number m))) events.messages ≡ true
      → (e : Failure) × (ingest r sha256 ttl_seconds f h g events w ≡ (err e, w))
  unfolding ingest
  ingest_without_phone missing =
      let (e, left) = rolled_back f events.messages w.db _ refl (λ o k.
        some_missing events.messages o.1 missing
          (recorded_all f events.messages 0 nothing w.db o k).0) in
      (e, rw left refl)
