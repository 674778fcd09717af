-- ===== src/Tests/Webhooks.antt =====
-- A webhook of src/piki/integrations/meta/ingress.py that is delivered twice, and one that is refused.
use buenpick_piki.Base.{ℕ, ◌≡◌, refl, true, not, any, truthy?, length, [], ◌∷◌}
use buenpick_piki.Base.Failure.{Result, ok}
use buenpick_piki.Base.Text.{strip}
use buenpick_piki.Sql.{select, update, insert_or_nothing}
use buenpick_piki.Sql.Laws.{find}
use buenpick_piki.Domain.Messages.{InboundMessage}
use buenpick_piki.Domain.Delivery.{DeliveryStatus}
use buenpick_piki.Db.Session.{session}
use buenpick_piki.Db.Models.{has_conversation}
use buenpick_piki.Conversations.Store.{record_inbound, upsert_conversation, upsert, insert_message}
use buenpick_piki.Coordination.Redis.{Link, up}
use buenpick_piki.Coordination.Dedup as Dedup
use buenpick_piki.Delivery.Store.{apply_callback, breaks_event_keys, can_transition}
use buenpick_piki.Meta.Payload.{MetaWebhookEvents}
use buenpick_piki.Ingress.Service.{
  WebhookIngestResult, MessageReadings, CallbackReadings, World, ingest, phone_number,
  record_messages, apply_statuses, claim_messages,
}
use buenpick_piki.Ingress.Again.{ingest_redelivered}
use buenpick_piki.Tests.Samples.{one_attempt, inbound, callback}
use buenpick_piki.Tests.Locks.{memory, sha, empty}

abbrev phoned : InboundMessage
phoned = record inbound { metadata = ("phone_number_id", "account") ∷ [] }

abbrev events : MetaWebhookEvents
events = record { messages = phoned ∷ []; statuses = callback DeliveryStatus.delivered ∷ [] }

abbrev unphoned : MetaWebhookEvents
unphoned = record events { messages = phoned ∷ inbound ∷ [] }

abbrev reads : ℕ → MessageReadings
reads n = record { conversation = 2; message = 10; now = 50; clock = 51 }

abbrev reads_again : ℕ → MessageReadings
reads_again n = record { conversation = 3; message = 11; now = 70; clock = 71 }

abbrev connects : ℕ → Link × ℕ
connects n = (up, 100)

abbrev calls : ℕ → CallbackReadings
calls n = record { event_id = 71; observed_at = 60; now = 61 }

abbrev world : World memory sha 60
world = record { db = one_attempt; redis = empty; emitted = [] }

abbrev result : WebhookIngestResult
result = record {
  accepted_messages = 1;
  duplicate_messages = 0;
  accepted_statuses = 1;
  duplicate_statuses = 0;
  ignored_statuses = 0;
}

first_result : (ingest memory sha 60 reads connects calls events world).0 ≡ ok result
unfolding ingest phone_number record_messages apply_statuses claim_messages record_inbound
    upsert_conversation upsert insert_message insert_or_nothing session find any has_conversation
    select apply_callback breaks_event_keys can_transition Dedup.claim strip update
first_result = refl

abbrev left : World memory sha 60
left = (ingest memory sha 60 reads connects calls events world).1

abbrev again : Result WebhookIngestResult × World memory sha 60
again = ingest memory sha 60 reads_again connects calls events left

ingest_redelivered_example :
    (again.1.db.messages ≡ left.db.messages)
    × ((res' : WebhookIngestResult)
        → again.0 ≡ ok res'
        → (res'.accepted_messages ≡ 0) × (res'.duplicate_messages ≡ length events.messages))
ingest_redelivered_example =
    ingest_redelivered memory sha 60 reads reads_again connects connects calls calls events world
      result first_result

second_unphoned : any (λ m. not (truthy? (phone_number m))) unphoned.messages ≡ true
unfolding any phone_number
second_unphoned = refl
