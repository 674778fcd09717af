-- ===== src/Ingress/Service.antt =====
-- `DefaultMetaWebhookIngress.ingest` of src/piki/integrations/meta/ingress.py. What each message and
-- each callback takes of clocks, fresh identifiers and the connection is a function of its place.
use Prim.Native.String.{◌++◌ as append}
use buenpick_piki.Base.{
  ℕ, String, suc, ◌+◌, Bool, true, false, Option, none, some, List, [], ◌∷◌, ◌++◌, truthy?, str_eq,
  if◌then◌else◌,
}
use buenpick_piki.Base.Failure.{Result, ok, err, ingress_retryable}
use buenpick_piki.Sql.{◌>>=◌}
use buenpick_piki.Domain.Messages.{InboundMessage}
use buenpick_piki.Meta.Status.{MetaStatusUpdate}
use buenpick_piki.Meta.Payload.{MetaWebhookEvents}
use buenpick_piki.Observability.{LifecycleRecord}
use buenpick_piki.Db.Models.{Db}
use buenpick_piki.Db.Session.{Block, session}
use buenpick_piki.Conversations.Store.{
  PersistStatus, created, duplicate, PersistedInbound, record_inbound,
}
use buenpick_piki.Coordination.Redis.{Redis, Link}
use buenpick_piki.Coordination.Dedup as Dedup
use buenpick_piki.Coordination.Dedup.{DedupStatus}
use buenpick_piki.Delivery.Types.{CallbackApplyStatus, missing_attempt, ignored_regression}
use buenpick_piki.Delivery.Store.{apply_callback}

pub record WebhookIngestResult : Type 0 where
  pub accepted_messages : ℕ
  pub duplicate_messages : ℕ
  pub accepted_statuses : ℕ
  pub duplicate_statuses : ℕ
  pub ignored_statuses : ℕ

-- what recording one message takes
pub record MessageReadings : Type 0 where
  pub conversation : ℕ
  pub message : ℕ
  pub now : ℕ
  pub clock : ℕ

-- what applying one callback takes
pub record CallbackReadings : Type 0 where
  pub event_id : ℕ
  pub observed_at : ℕ
  pub now : ℕ

-- `metadata.get(key)`
unfoldable pub get_item : String → List (String × String) → Option String
get_item key [] = none
get_item key ((k, v) ∷ rest) =
    let found = get_item key rest in if str_eq k key then some v else found

-- the phone number that a message came to
unfoldable pub phone_number : InboundMessage → Option String
unfolding get_item
phone_number m = get_item "phone_number_id" m.metadata

abbrev pub text_of : Option String → String
text_of none = ""
text_of (some s) = s

-- the counts and the durable messages so far
pub record Recorded : Type 0 where
  pub accepted : ℕ
  pub duplicates : ℕ
  pub durable : List (String × String)

abbrev pub counted : Recorded → String → String → PersistStatus → Recorded
counted r phone message_id duplicate = record {
  accepted = r.accepted;
  duplicates = r.duplicates + 1;
  durable = r.durable ++ (phone, message_id) ∷ [];
}
counted r phone message_id created = record {
  accepted = r.accepted + 1;
  duplicates = r.duplicates;
  durable = r.durable ++ (phone, message_id) ∷ [];
}

abbrev pub record_one : MessageReadings → String → InboundMessage → Block PersistedInbound
record_one f phone m =
    record_inbound f.conversation f.message f.now f.clock phone m (append "meta:" m.message_id) true

-- the loop over the messages, inside one session
unfoldable pub record_messages :
    (ℕ → MessageReadings) → ℕ → List InboundMessage → Recorded → Block Recorded
unfolding phone_number
record_messages f n [] r db = ok (r, db)
record_messages f n (m ∷ ms) r db =
    if truthy? (phone_number m)
    then record_one (f n) (text_of (phone_number m)) m db >>= (λ p.
      record_messages f (suc n) ms (counted r (text_of (phone_number m)) m.message_id p.0.status)
        p.1)
    else err (ingress_retryable "normalized message has no phone number ID")

-- the counts of the callbacks so far
pub record Counted : Type 0 where
  pub accepted : ℕ
  pub duplicates : ℕ
  pub ignored : ℕ

abbrev pub counted_status : Counted → CallbackApplyStatus → Counted
counted_status c CallbackApplyStatus.duplicate = record c { duplicates = c.duplicates + 1 }
counted_status c ignored_regression = record c { ignored = c.ignored + 1 }
counted_status c _ = record c { accepted = c.accepted + 1 }

abbrev pub is_missing : CallbackApplyStatus → Bool
is_missing missing_attempt = true
is_missing _ = false

abbrev pub after_status :
    Result CallbackApplyStatus
    → Db
    → List LifecycleRecord
    → (CallbackApplyStatus → Result Counted × Db × List LifecycleRecord)
    → Result Counted × Db × List LifecycleRecord
after_status (err e) db events rest = (err e, db, events)
after_status (ok s) db events rest =
    if is_missing s
    then (
      err (ingress_retryable "delivery callback arrived before its durable attempt"),
      db,
      events,
    )
    else ((rest s).0, (rest s).1, events ++ (rest s).2)

-- the loop over the callbacks, each in a session of its own
unfoldable pub apply_statuses :
    (ℕ → CallbackReadings)
    → ℕ
    → List MetaStatusUpdate
    → Counted
    → Db
    → Result Counted × Db × List LifecycleRecord
apply_statuses g n [] c db = (ok c, db, [])
apply_statuses g n (s ∷ ss) c db =
    let done = apply_callback (g n).event_id (g n).observed_at (g n).now s db in
    after_status done.0 done.1 done.2
      (λ status. apply_statuses g (suc n) ss (counted_status c status) done.1)

module _ (r : Redis) (sha256 : String → String) (ttl_seconds : ℕ) where
  abbrev pub after_dedup :
      Result DedupStatus
      → r.State
      → (r.State → Result (Unit {0}) × r.State)
      → Result (Unit {0}) × r.State
  after_dedup (err e) s rest = (err e, s)
  after_dedup (ok _) s rest = rest s

  -- the loop over the durable messages: a claim that is unavailable is passed over
  unfoldable pub claim_messages :
      (ℕ → Link × ℕ) → ℕ → List (String × String) → r.State → Result (Unit {0}) × r.State
  claim_messages h n [] s = (ok tt, s)
  claim_messages h n ((phone, message_id) ∷ rest) s =
      let done = Dedup.claim r sha256 ttl_seconds (h n).0 (h n).1 phone message_id s in
      after_dedup done.0 done.1 (claim_messages h (suc n) rest)

  pub record World : Type 0 where
    pub db : Db
    pub redis : r.State
    pub emitted : List LifecycleRecord

  abbrev pub after_statuses :
      Recorded
      → World
      → Result Counted × Db × List LifecycleRecord
      → Result WebhookIngestResult × World
  after_statuses m w (err e, db, events) =
      (err e, record w { db = db; emitted = w.emitted ++ events })
  after_statuses m w (ok c, db, events) = (
    ok (record {
      accepted_messages = m.accepted;
      duplicate_messages = m.duplicates;
      accepted_statuses = c.accepted;
      duplicate_statuses = c.duplicates;
      ignored_statuses = c.ignored;
    }),
    record w { db = db; emitted = w.emitted ++ events },
  )

  abbrev pub after_claims :
      (ℕ → CallbackReadings)
      → List MetaStatusUpdate
      → Recorded
      → World
      → Result (Unit {0}) × r.State
      → Result WebhookIngestResult × World
  after_claims g statuses m w (err e, s) = (err e, record w { redis = s })
  after_claims g statuses m w (ok _, s) =
      after_statuses m (record w { redis = s })
        (apply_statuses g 0 statuses (record { accepted = 0; duplicates = 0; ignored = 0 }) w.db)

  abbrev pub after_messages :
      (ℕ → Link × ℕ)
      → (ℕ → CallbackReadings)
      → List MetaStatusUpdate
      → World
      → Result Recorded × Db
      → Result WebhookIngestResult × World
  after_messages h g statuses w (err e, db) = (err e, record w { db = db })
  after_messages h g statuses w (ok m, db) =
      after_claims g statuses m (record w { db = db }) (claim_messages h 0 m.durable w.redis)

  -- `ingest(events)`
  unfoldable pub ingest :
      (ℕ → MessageReadings)
      → (ℕ → Link × ℕ)
      → (ℕ → CallbackReadings)
      → MetaWebhookEvents
      → World
      → Result WebhookIngestResult × World
  unfolding claim_messages session record_messages apply_statuses
  ingest f h g events w = after_messages h g events.statuses w (
      session
        (record_messages f 0 events.messages
          (record { accepted = 0; duplicates = 0; durable = [] }))
        w.db)
