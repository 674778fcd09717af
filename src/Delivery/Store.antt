-- ===== src/Delivery/Store.antt =====
-- `PostgresDeliveryStore` of src/piki/delivery/service.py. `uuid4()` and the clock are arguments.
use buenpick_piki.Base.{
  ℕ, String, Bool, true, false, not, ◌&&◌, ◌||◌, Option, none, some, List, [], ◌∷◌, any, ◌==◌,
  str_eq, column_is, if◌then◌else◌,
}
use buenpick_piki.Base.Failure.{Result, ok, err, runtime_error, map_result}
use buenpick_piki.Sql.{◌>>=◌, select, update, insert_or_nothing, insert, one_or_none, one}
use buenpick_piki.Domain.Delivery.{DeliveryRequest, DeliveryResult, DeliveryStatus}
use buenpick_piki.Db.Models.{
  Db, DeliveryAttemptRecord, DeliveryStatusEventRecord, DeliveryAttemptState, pending, accepted,
  sent, delivered, read, failed, has_conversation, same_state,
}
use buenpick_piki.Db.Session.{Block, session}
use buenpick_piki.Meta.Status.{MetaStatusUpdate}
use buenpick_piki.Observability.{
  LifecycleRecord, delivery_succeeded, delivery_failed, lifecycle_record, EventOutcome,
}
use buenpick_piki.Delivery.Types.{
  DeliveryClaim, CallbackApplyStatus, applied, duplicate, ignored_regression, missing_attempt,
  attempt_state, is_pending, snapshot,
}

-- the row that `claim` inserts
unfoldable pub new_attempt : ℕ → ℕ → ℕ → DeliveryRequest → DeliveryAttemptRecord
new_attempt attempt_id conversation_id now request = record {
  id = attempt_id;
  conversation_id = conversation_id;
  idempotency_key = request.idempotency_key;
  provider_message_id = none;
  status = pending;
  error_code = none;
  error_message = none;
  trace_id = request.trace_id;
  created_at = now;
  updated_at = now;
}

abbrev pub key_is : String → DeliveryAttemptRecord → Bool
key_is key a = str_eq a.idempotency_key key

abbrev pub attempt_is : ℕ → DeliveryAttemptRecord → Bool
attempt_is i a = a.id == i

finish_claim : DeliveryRequest → Option DeliveryAttemptRecord → Block DeliveryClaim
unfolding one select snapshot
finish_claim request (some row) db = ok (record { created = true; attempt = snapshot row }, db)
finish_claim request none db = one (select (key_is request.idempotency_key) db.attempts) >>= λ row.
    ok (record { created = false; attempt = snapshot row }, db)

claim_block : ℕ → ℕ → ℕ → DeliveryRequest → Block DeliveryClaim
unfolding finish_claim insert_or_nothing new_attempt
claim_block attempt_id conversation_id now request db =
    insert_or_nothing (any (key_is request.idempotency_key) db.attempts)
      (any (attempt_is attempt_id) db.attempts || not (has_conversation conversation_id db))
      (new_attempt attempt_id conversation_id now request) db.attempts
    >>= λ r. finish_claim request r.0 (record db { attempts = r.1 })

-- `claim(conversation_id, request)`
unfoldable pub claim : ℕ → ℕ → ℕ → DeliveryRequest → Db → Result DeliveryClaim × Db
unfolding claim_block session
claim attempt_id conversation_id now request =
    session (claim_block attempt_id conversation_id now request)

abbrev pub pending_attempt : ℕ → DeliveryAttemptRecord → Bool
pending_attempt i a = attempt_is i a && is_pending a.status

-- what `finalize` writes
abbrev pub finalized : ℕ → DeliveryResult → DeliveryAttemptRecord → DeliveryAttemptRecord
finalized now result a = record a {
  provider_message_id = result.provider_message_id;
  status = attempt_state result.status;
  error_code = result.error_code;
  error_message = result.error_message;
  updated_at = now;
}

-- the unique constraint on (provider_message_id, status), where NULL is no duplicate of NULL
abbrev pub same_event : Option String → DeliveryAttemptState → DeliveryStatusEventRecord → Bool
same_event none s e = false
same_event (some p) s e = column_is e.provider_message_id p && same_state e.status s

-- an event that breaks another constraint of its table: the primary key, or the foreign key
unfoldable pub breaks_event_keys : ℕ → ℕ → Db → Bool
breaks_event_keys event_id attempt_id db =
    any (λ (e : DeliveryStatusEventRecord). e.id == event_id) db.status_events
    || not (any (attempt_is attempt_id) db.attempts)

-- the event that `finalize` adds to the session
result_event : ℕ → ℕ → ℕ → DeliveryResult → DeliveryStatusEventRecord
result_event event_id attempt_id now result = record {
  id = event_id;
  delivery_attempt_id = attempt_id;
  provider_message_id = result.provider_message_id;
  status = attempt_state result.status;
  error_code = result.error_code;
  error_message = result.error_message;
  trace_id = result.trace_id;
  occurred_at = now;
}

finalize_block : ℕ → ℕ → ℕ → DeliveryResult → Block (Unit {0})
unfolding result_event insert
finalize_block event_id now attempt_id result db =
    if not (any (pending_attempt attempt_id) db.attempts)
    then err (runtime_error "delivery attempt is no longer pending")
    else (insert
          (any (same_event result.provider_message_id (attempt_state result.status))
              db.status_events
            || breaks_event_keys event_id attempt_id db)
          (result_event event_id attempt_id now result) db.status_events
        >>= λ events. ok (
          tt,
          record db {
            attempts = update (pending_attempt attempt_id) (finalized now result) db.attempts;
            status_events = events;
          },
        ))

-- `finalize(attempt_id, result)`
unfoldable pub finalize : ℕ → ℕ → ℕ → DeliveryResult → Db → Result (Unit {0}) × Db
unfolding finalize_block session
finalize event_id now attempt_id result = session (finalize_block event_id now attempt_id result)

-- the sets of `_can_transition`
unfoldable pub can_transition : DeliveryAttemptState → DeliveryAttemptState → Bool
can_transition accepted sent = true
can_transition accepted delivered = true
can_transition accepted read = true
can_transition accepted failed = true
can_transition sent delivered = true
can_transition sent read = true
can_transition sent failed = true
can_transition delivered read = true
can_transition _ _ = false

abbrev pub provider_is : String → DeliveryAttemptRecord → Bool
provider_is p a = column_is a.provider_message_id p

-- the event that a callback records
unfoldable pub callback_event :
    ℕ → DeliveryAttemptRecord → MetaStatusUpdate → DeliveryStatusEventRecord
callback_event event_id attempt callback = record {
  id = event_id;
  delivery_attempt_id = attempt.id;
  provider_message_id = some callback.provider_message_id;
  status = attempt_state callback.status;
  error_code = callback.error_code;
  error_message = callback.error_message;
  trace_id = attempt.trace_id;
  occurred_at = callback.occurred_at;
}

-- what an applied callback writes to its attempt
abbrev pub moved : ℕ → MetaStatusUpdate → DeliveryAttemptRecord → DeliveryAttemptRecord
moved now callback a = record a {
  status = attempt_state callback.status;
  error_code = callback.error_code;
  error_message = callback.error_message;
  updated_at = now;
}

-- after the insertion of the event: `none` says that the event was there before
abbrev after_event :
    ℕ
    → DeliveryAttemptRecord
    → MetaStatusUpdate
    → Option DeliveryStatusEventRecord
    → Block (CallbackApplyStatus × Option String)
after_event now attempt callback none db = ok ((duplicate, some attempt.trace_id), db)
after_event now attempt callback (some event) db =
    if not (can_transition attempt.status (attempt_state callback.status))
    then ok ((ignored_regression, some attempt.trace_id), db)
    else ok (
      (applied, some attempt.trace_id),
      record db { attempts = update (attempt_is attempt.id) (moved now callback) db.attempts },
    )

callback_on :
    ℕ
    → ℕ
    → MetaStatusUpdate
    → Option DeliveryAttemptRecord
    → Block (CallbackApplyStatus × Option String)
unfolding callback_event insert_or_nothing
callback_on event_id now callback none db = ok ((missing_attempt, none), db)
callback_on event_id now callback (some attempt) db =
    insert_or_nothing
      (any (same_event (some callback.provider_message_id) (attempt_state callback.status))
        db.status_events)
      (breaks_event_keys event_id attempt.id db) (callback_event event_id attempt callback)
      db.status_events
    >>= λ r. after_event now attempt callback r.0 (record db { status_events = r.1 })

-- `_apply_callback`
callback_block : ℕ → ℕ → MetaStatusUpdate → Block (CallbackApplyStatus × Option String)
unfolding callback_on one_or_none select
callback_block event_id now callback db =
    one_or_none (select (provider_is callback.provider_message_id) db.attempts) >>= λ found.
    callback_on event_id now callback found db

-- the events that the observer is handed once the transaction has committed: the trace of a stored
-- attempt and the error code of a callback have the bounds of a record
abbrev callback_events :
    ℕ → ℕ → MetaStatusUpdate → Result (CallbackApplyStatus × Option String) → List LifecycleRecord
callback_events now observed_at callback (ok (applied, some trace_id)) = elim callback.status [
  | DeliveryStatus.delivered ↦
      lifecycle_record now delivery_succeeded trace_id "meta_delivery_callback"
        EventOutcome.succeeded (some observed_at) none none none
      ∷ []
  | DeliveryStatus.failed ↦
      lifecycle_record now delivery_failed trace_id "meta_delivery_callback" EventOutcome.failed
        (some observed_at) callback.error_code none none
      ∷ []
  | _ ↦ []
]
callback_events now observed_at callback _ = []

abbrev callback_reply :
    ℕ
    → ℕ
    → MetaStatusUpdate
    → Result (CallbackApplyStatus × Option String) × Db
    → Result CallbackApplyStatus × Db × List LifecycleRecord
callback_reply now observed_at callback (r, db) = (
  map_result (λ (s : CallbackApplyStatus × Option String). s.0) r,
  db,
  callback_events now observed_at callback r,
)

-- `apply_callback(callback)`: what it returns, the tables, and what it emits
unfoldable pub apply_callback :
    ℕ → ℕ → ℕ → MetaStatusUpdate → Db → Result CallbackApplyStatus × Db × List LifecycleRecord
unfolding callback_block session
apply_callback event_id observed_at now callback db =
    callback_reply now observed_at callback (session (callback_block event_id now callback) db)
