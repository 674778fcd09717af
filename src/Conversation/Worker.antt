-- ===== src/Conversation/Worker.antt =====
-- `ConversationProcessingWorker` of src/piki/conversation/worker.py: one message of the queue is
-- answered, its reply delivered and its claim settled. The adapter's call and the Redis are
-- arguments, and so is `error_code`, the `type(error).__name__.casefold()[:100]` of an exception.
use Prim.Native.String.{◌++◌ as append}
use buenpick_piki.Base.{
  ℕ, String, Bool, true, false, Option, none, some, List, [], leb, ltb, truthy, ◌+◌, ◌*◌,
  if◌then◌else◌,
}
use buenpick_piki.Base.Failure.{Failure, Result, ok, err, conversation_busy}
use buenpick_piki.Domain.Delivery.{
  DeliveryKind, DeliveryRequest, DeliveryResult, DeliveryStatus, accepted, sent, delivered, read,
  open_window, unknown_window, validate_content,
}
use buenpick_piki.Db.Models.{Db}
use buenpick_piki.Observability.{LifecycleRecord}
use buenpick_piki.Processing.Store.{ClaimedInbound, claim_next, complete, fail, second}
use buenpick_piki.Coordination.Redis.{Redis}
use buenpick_piki.Delivery.Service.{send, World as SentWorld, Readings as DeliveryReadings}
use buenpick_piki.Conversation.Service.{ConversationReply, Composer, Readings}
use buenpick_piki.Conversation.Locked.{LockCalls, World, respond_persisted}

pub record WorkerSettings : Type 0 where
  pub claim_timeout_seconds : ℕ
  pub max_attempts : ℕ
  pub lock_ttl_seconds : ℕ

-- what one call of `process_once` takes of the clocks and of fresh identifiers
pub record WorkerReadings : Type 0 where
  pub claimed_at : ℕ
  pub reply : Readings
  pub lock : LockCalls
  pub window_at : ℕ
  pub delivery : DeliveryReadings
  pub failed_at : ℕ

module _ (r : Redis) where
  pub record WorkerWorld : Type 0 where
    pub db : Db
    pub redis : r.State
    pub adapter_calls : List DeliveryRequest
    pub emitted : List LifecycleRecord

-- the statuses for which the message is completed
abbrev pub is_accepted : DeliveryStatus → Bool
is_accepted accepted = true
is_accepted sent = true
is_accepted delivered = true
is_accepted read = true
is_accepted _ = false

-- `result.error_code or "delivery_failed"`
abbrev pub delivery_code : Option String → String
delivery_code none = "delivery_failed"
delivery_code (some code) = if truthy code then code else "delivery_failed"

-- the delivery request of a reply, before it is validated
abbrev pub reply_request : ℕ → ClaimedInbound → ConversationReply → DeliveryRequest
reply_request now job reply = record {
  idempotency_key = append "reply:" job.message.message_id;
  conversation_id = job.message.conversation_id;
  kind = DeliveryKind.text;
  text = some reply.text;
  media_url = none;
  interactive_options = [];
  template_name = none;
  template_language = none;
  template_parameters = [];
  customer_service_window =
      if leb now (job.message.received_at.micros + 24 * 3600 * second)
      then open_window
      else unknown_window;
  trace_id = reply.trace_id;
}

-- the claim after a delivery that returned
unfoldable pub settle : ℕ → ClaimedInbound → DeliveryResult → Db → Result (Unit {0}) × Db
settle now job result db =
    if is_accepted result.status
    then complete job.message_record_id db
    else fail now job.message_record_id (delivery_code result.error_code) false db

module _ (r : Redis) (sha256 normalize : String → String) (error_code : Failure → String)
    (s : WorkerSettings) (c : Composer) (adapter : DeliveryRequest → Result DeliveryResult)
    (locked : ℕ → Bool) where
  abbrev pub after_settle :
      WorkerWorld r → Result (Unit {0}) × Db → Result (Unit {0}) × WorkerWorld r
  after_settle w (done, db) = (done, record w { db = db })

  abbrev pub with_delivery : WorkerWorld r → SentWorld → WorkerWorld r
  with_delivery w d = record w { db = d.db; adapter_calls = d.adapter_calls; emitted = d.emitted }

  abbrev pub after_send :
      WorkerReadings
      → ClaimedInbound
      → WorkerWorld r
      → Result DeliveryResult × SentWorld
      → Result (Unit {0}) × WorkerWorld r
  after_send t job w (err e, d) = (err e, with_delivery w d)
  after_send t job w (ok result, d) =
      after_settle (with_delivery w d) (settle t.failed_at job result d.db)

  abbrev pub deliver :
      WorkerReadings
      → ClaimedInbound
      → WorkerWorld r
      → Result DeliveryRequest
      → Result (Unit {0}) × WorkerWorld r
  deliver t job w (err e) = (err e, w)
  deliver t job w (ok request) = after_send t job w (
      send adapter t.delivery job.conversation_record_id request
        (record { db = w.db; adapter_calls = w.adapter_calls; emitted = w.emitted }))

  abbrev pub with_reply : WorkerWorld r → World r → WorkerWorld r
  with_reply w v = record w { db = v.db; redis = v.redis; emitted = v.emitted }

  abbrev pub after_reply :
      WorkerReadings
      → ClaimedInbound
      → WorkerWorld r
      → Result ConversationReply × World r
      → Result (Unit {0}) × WorkerWorld r
  after_reply t job w (err e, v) = (err e, with_reply w v)
  after_reply t job w (ok reply, v) =
      deliver t job (with_reply w v) (validate_content (reply_request t.window_at job reply))

  -- the body of the `try`
  unfoldable pub answer :
      WorkerReadings → ClaimedInbound → WorkerWorld r → Result (Unit {0}) × WorkerWorld r
  unfolding settle
  answer t job w = after_reply t job w (
      respond_persisted r sha256 normalize s.lock_ttl_seconds c t.reply t.lock job.message
        job.channel_account_id job.conversation_record_id
        (record { db = w.db; redis = w.redis; emitted = w.emitted }))

  -- the error code of either handler
  abbrev pub handled_code : Failure → String
  handled_code (conversation_busy _) = "conversation_busy"
  handled_code e = error_code e

  abbrev pub after_fail : WorkerWorld r → Result (Unit {0}) × Db → Result Bool × WorkerWorld r
  after_fail w (ok _, db) = (ok true, record w { db = db })
  after_fail w (err e, db) = (err e, record w { db = db })

  -- the two `except` clauses
  unfoldable pub handle :
      WorkerReadings
      → ClaimedInbound
      → Result (Unit {0}) × WorkerWorld r
      → Result Bool × WorkerWorld r
  handle t job (ok _, w) = (ok true, w)
  handle t job (err e, w) = after_fail w (
      fail t.failed_at job.message_record_id (handled_code e) (ltb job.attempts s.max_attempts)
        w.db)

  abbrev pub after_claim :
      WorkerReadings
      → WorkerWorld r
      → Result (Option ClaimedInbound) × Db
      → Result Bool × WorkerWorld r
  after_claim t w (err e, db) = (err e, record w { db = db })
  after_claim t w (ok none, db) = (ok false, record w { db = db })
  after_claim t w (ok (some job), db) = handle t job (answer t job (record w { db = db }))

  -- `process_once()`
  unfoldable pub process_once : WorkerReadings → WorkerWorld r → Result Bool × WorkerWorld r
  unfolding answer handle
  process_once t w = after_claim t w (claim_next locked t.claimed_at s.claim_timeout_seconds w.db)
