-- ===== src/Delivery/Redelivery.antt =====
-- `apply_callback` of src/piki/delivery/service.py under redelivery, and what it emits.
use buenpick_piki.Base.{
  ℕ, ◌≡◌, ◌≢◌, refl, true, some, List, [], ◌∷◌, ◌++◌, arith, any, map, eq_refl,
}
use buenpick_piki.Base.Failure.{Result, ok}
use buenpick_piki.Sql.{select}
use buenpick_piki.Sql.Laws.{select-update, any-append}
use buenpick_piki.Db.Models.{Db, DeliveryAttemptRecord, DeliveryStatusEventRecord, delivered}
use buenpick_piki.Meta.Status.{MetaStatusUpdate}
use buenpick_piki.Observability.{LifecycleRecord, LifecycleEvent, lifecycle_record}
use buenpick_piki.Delivery.Types.{
  CallbackApplyStatus, applied, ignored_regression, duplicate, missing_attempt, attempt_state,
}
use buenpick_piki.Delivery.Store.{
  apply_callback, attempt_is, provider_is, same_event, moved, callback_event,
}

-- the recorded event makes every later one of its kind a duplicate
recorded :
    (event_id : ℕ) (a : DeliveryAttemptRecord) (c d : MetaStatusUpdate)
    (events : List DeliveryStatusEventRecord)
    → d.provider_message_id ≡ c.provider_message_id
    → d.status ≡ c.status
    → any
        (same_event (some d.provider_message_id) (attempt_state d.status))
        (events ++ callback_event event_id a c ∷ [])
      ≡ true
unfolding callback_event
recorded event_id a c d events p s =
    rw (any-append, p, s) (ground (arith, eq_refl c.provider_message_id))

module _ (event_id observed_at now : ℕ) (c : MetaStatusUpdate) (db : Db) where
  abbrev result : Result CallbackApplyStatus × Db × List LifecycleRecord
  result = apply_callback event_id observed_at now c db

  module _ (event_id' observed_at' now' : ℕ) (d : MetaStatusUpdate) where
    again :
        {s : CallbackApplyStatus} (found : List DeliveryAttemptRecord)
        → select (provider_is c.provider_message_id) db.attempts ≡ found
        → d.provider_message_id ≡ c.provider_message_id
        → d.status ≡ c.status
        → result.0 ≡ ok s
        → s ≢ missing_attempt
        → apply_callback event_id' observed_at' now' d result.1 ≡ (ok duplicate, result.1, [])
    unfolding apply_callback
    again [] h p q r m = absurd (m (ground arith))
    again (a ∷ b ∷ rest) h p q r m = absurd (ground arith)
    again (a ∷ []) h p q r m = rw p (
        ground (
          arith,
          recorded event_id a c d db.status_events p q,
          select-update (provider_is c.provider_message_id) (attempt_is a.id) (moved now c)
              db.attempts (λ r. refl),
        ))

    -- Once a callback has been answered for a known attempt, a second one with the same provider
    -- message and status is a duplicate that changes and emits nothing.
    pub apply_callback_again :
        {s : CallbackApplyStatus}
        → d.provider_message_id ≡ c.provider_message_id
        → d.status ≡ c.status
        → result.0 ≡ ok s
        → s ≢ missing_attempt
        → apply_callback event_id' observed_at' now' d result.1 ≡ (ok duplicate, result.1, [])
    apply_callback_again = again _ refl

  -- What a callback may change, by its answer.
  frame :
      (found : List DeliveryAttemptRecord)
      → select (provider_is c.provider_message_id) db.attempts ≡ found
      → (result.0 ≢ ok applied → result.1.attempts ≡ db.attempts)
        × (result.0 ≢ ok applied → result.0 ≢ ok ignored_regression → result.1 ≡ db)
        × (result.0 ≢ ok applied → result.2 ≡ [])
  unfolding apply_callback
  frame [] h = ground arith
  frame (a ∷ []) h = ground arith
  frame (a ∷ b ∷ rest) h = ground arith

  -- A callback that is not applied leaves every attempt as it was and emits nothing; one that is
  -- neither applied nor ignored as a regression (a duplicate, a missing attempt, an exception)
  -- leaves the whole database as it was.
  pub apply_callback_frame :
      (result.0 ≢ ok applied → result.1.attempts ≡ db.attempts)
      × (result.0 ≢ ok applied → result.0 ≢ ok ignored_regression → result.1 ≡ db)
      × (result.0 ≢ ok applied → result.2 ≡ [])
  apply_callback_frame = frame _ refl

  durable :
      (found : List DeliveryAttemptRecord)
      → select (provider_is c.provider_message_id) db.attempts ≡ found
      → (r : LifecycleRecord) (rest : List LifecycleRecord) → result.2 ≡ r ∷ rest
      → r.event ≡ LifecycleEvent.delivery_succeeded
      → map
          (λ (a : DeliveryAttemptRecord). a.status)
          (select (provider_is c.provider_message_id) result.1.attempts)
        ≡ delivered ∷ []
  unfolding apply_callback lifecycle_record
  durable [] h r rest e k = absurd (ground arith)
  durable (a ∷ b ∷ l) h r rest e k = absurd (ground arith)
  durable (a ∷ []) h r rest e k = ground (
    arith,
    select-update (provider_is c.provider_message_id) (attempt_is a.id) (moved now c) db.attempts
        (λ r. refl),
  )

  -- When a callback emits `delivery_succeeded` first, the stored attempts of its provider message
  -- are one, in the state `delivered`.
  pub delivery_succeeded_is_durable :
      (r : LifecycleRecord) (rest : List LifecycleRecord)
      → result.2 ≡ r ∷ rest
      → r.event ≡ LifecycleEvent.delivery_succeeded
      → map
          (λ (a : DeliveryAttemptRecord). a.status)
          (select (provider_is c.provider_message_id) result.1.attempts)
        ≡ delivered ∷ []
  delivery_succeeded_is_durable = durable _ refl
