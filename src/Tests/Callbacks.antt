-- ===== src/Tests/Callbacks.antt =====
-- Provider callbacks of src/piki/delivery/service.py, in and out of order.
use mathlib.Core.List.{foldl}
use buenpick_piki.Base.{◌≡◌, refl, none, some, List, [], ◌∷◌, map, any, arith, fits}
use buenpick_piki.Base.Failure.{Result, ok}
use buenpick_piki.Sql.{select, update}
use buenpick_piki.Domain.Delivery.{DeliveryStatus}
use buenpick_piki.Db.Models.{Db, DeliveryAttemptRecord, accepted, delivered}
use buenpick_piki.Observability.{
  LifecycleRecord, LifecycleEvent, lifecycle_record, delivery_succeeded, EventOutcome,
}
use buenpick_piki.Meta.Status.{validate_error_shape}
use buenpick_piki.Delivery.Types.{CallbackApplyStatus, applied, duplicate}
use buenpick_piki.Delivery.Store.{apply_callback, breaks_event_keys, can_transition, provider_is}
use buenpick_piki.Delivery.Lifecycle.{progress, advance}
use buenpick_piki.Delivery.Redelivery.{apply_callback_again, delivery_succeeded_is_durable}
use buenpick_piki.Delivery.Order.{
  Arrival, AllAnswered, IsSettled, states, deliver_all, target, furthest, states-deliver_all,
  progress-deliver_all,
}
use buenpick_piki.Delivery.Invariant.{IsStore}
use buenpick_piki.Delivery.Store.{claim, finalize}
use buenpick_piki.Delivery.Kept.{Operated, untouched, claims, finalizes, applies, Operated-IsStore}
use buenpick_piki.Tests.Samples.{one_attempt, callback, sent_result}
use buenpick_piki.Tests.Deliveries.{one_attempt-IsStore, other_request, request_valid, result_valid}

abbrev done : Result CallbackApplyStatus × Db × List LifecycleRecord
done = apply_callback 71 60 61 (callback DeliveryStatus.delivered) one_attempt

done_applied : done.0 ≡ ok applied
unfolding apply_callback select any breaks_event_keys can_transition
done_applied = refl

apply_callback_again_example :
    apply_callback 72 62 63 (callback DeliveryStatus.delivered) done.1 ≡ (ok duplicate, done.1, [])
apply_callback_again_example =
    apply_callback_again 71 60 61 (callback DeliveryStatus.delivered) one_attempt 72 62 63
      (callback DeliveryStatus.delivered) {s = applied} refl refl done_applied (λ e. cc)

abbrev record_emitted : LifecycleRecord
record_emitted =
    lifecycle_record 61 delivery_succeeded "trace" "meta_delivery_callback" EventOutcome.succeeded
      (some 60) none none none

emits : done.2 ≡ record_emitted ∷ []
unfolding apply_callback select any breaks_event_keys can_transition
emits = refl

is_success : record_emitted.event ≡ LifecycleEvent.delivery_succeeded
unfolding lifecycle_record
is_success = refl

delivery_succeeded_is_durable_example :
    map (λ (a : DeliveryAttemptRecord). a.status) (select (provider_is "wamid.1") done.1.attempts)
    ≡ delivered ∷ []
delivery_succeeded_is_durable_example =
    delivery_succeeded_is_durable 71 60 61 (callback DeliveryStatus.delivered) one_attempt
      record_emitted [] emits is_success

-- delivered arrives before sent, and twice
abbrev arrivals : List Arrival
arrivals =
    record { event_id = 71; observed_at = 60; now = 61; update = callback DeliveryStatus.delivered }
    ∷ record { event_id = 72; observed_at = 62; now = 63; update = callback DeliveryStatus.sent }
    ∷ record {
      event_id = 73;
      observed_at = 64;
      now = 65;
      update = callback DeliveryStatus.delivered;
    }
    ∷ []

accepted_alone : states "wamid.1" one_attempt ≡ accepted ∷ []
unfolding select
accepted_alone = refl

settled : IsSettled "wamid.1" one_attempt
unfolding any
settled s t h k = absurd (cc)

answered : AllAnswered "wamid.1" arrivals one_attempt
unfolding apply_callback select any breaks_event_keys can_transition update
answered = (refl, refl, (refl, refl, (refl, refl, tt)))

states-deliver_all_example :
    states "wamid.1" (deliver_all arrivals one_attempt)
    ≡ foldl advance accepted (map target arrivals) ∷ []
states-deliver_all_example =
    states-deliver_all "wamid.1" arrivals one_attempt accepted accepted_alone settled answered

progress-deliver_all_example :
    map progress (states "wamid.1" (deliver_all arrivals one_attempt))
    ≡ furthest (progress accepted) (map target arrivals) ∷ []
progress-deliver_all_example =
    progress-deliver_all "wamid.1" arrivals one_attempt accepted accepted_alone settled answered
      (omega arith) (λ e. cc) (λ e. cc, (λ e. cc, (λ e. cc, tt)))

valid_callback :
    validate_error_shape (callback DeliveryStatus.delivered)
    ≡ ok (callback DeliveryStatus.delivered)
unfolding validate_error_shape fits
valid_callback = refl

abbrev sent_once : Db
sent_once = (finalize 70 110 8 sent_result (claim 8 1 100 other_request one_attempt).1).1

operates :
    Operated one_attempt (apply_callback 71 60 61 (callback DeliveryStatus.delivered) sent_once).1
operates =
    applies 71 60 61 (callback DeliveryStatus.delivered) valid_callback (λ e. cc)
      (finalizes 70 110 8 sent_result result_valid
        (claims 8 1 100 other_request request_valid untouched))

Operated-IsStore_example :
    IsStore (apply_callback 71 60 61 (callback DeliveryStatus.delivered) sent_once).1.attempts
Operated-IsStore_example = Operated-IsStore one_attempt _ operates one_attempt-IsStore
