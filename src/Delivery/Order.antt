-- ===== src/Delivery/Order.antt =====
-- Callbacks in any order, with any repetition: deduplication by recorded events
-- (src/piki/delivery/service.py) loses no transition, and the furthest state wins.
use Prim.Native.Nat.{max}
use mathlib.Core.List.{foldl}
use mathlib.Core.Path.{subst}
use buenpick_piki.Base.{
  ℕ, String, ◌≤◌, ◌≡◌, ◌≢◌, refl, true, false, some, List, [], ◌∷◌, arith, any, map, inl, inr, ◌⊎◌,
  All,
}
use buenpick_piki.Base.Failure.{Result, is_ok}
use buenpick_piki.Sql.{select}
use buenpick_piki.Sql.Laws.{select-update, any-append}
use buenpick_piki.Db.Models.{
  Db, DeliveryAttemptRecord, DeliveryAttemptState, failed, state_code_inj,
}
use buenpick_piki.Meta.Status.{MetaStatusUpdate}
use buenpick_piki.Observability.{LifecycleRecord}
use buenpick_piki.Delivery.Types.{attempt_state, CallbackApplyStatus}
use buenpick_piki.Delivery.Store.{
  apply_callback, attempt_is, provider_is, same_event, can_transition, moved, callback_event,
}
use buenpick_piki.Delivery.Lifecycle.{
  progress, can_transition_kept, advance, can_transition-advance, progress-advance,
}

-- the states of the attempts of a provider message
abbrev pub states : String → Db → List DeliveryAttemptState
states p db = map (λ (a : DeliveryAttemptRecord). a.status) (select (provider_is p) db.attempts)

-- No event that is recorded for the provider message is still a permitted transition of its
-- attempt.
abbrev pub IsSettled : String → Db → Type 0
IsSettled p db =
    (s t : DeliveryAttemptState)
    → states p db ≡ s ∷ []
    → any (same_event (some p) t) db.status_events ≡ true
    → can_transition s t ≡ false

-- one delivery of a callback, with the identifier and the clock readings that it takes
pub record Arrival : Type 0 where
  pub event_id : ℕ
  pub observed_at : ℕ
  pub now : ℕ
  pub update : MetaStatusUpdate

abbrev pub deliver : Arrival → Db → Result CallbackApplyStatus × Db × List LifecycleRecord
deliver c db = apply_callback c.event_id c.observed_at c.now c.update db

abbrev pub deliver_all : List Arrival → Db → Db
deliver_all [] db = db
deliver_all (c ∷ cs) db = deliver_all cs (deliver c db).1

-- every callback of the list is about the provider message and is answered: none raises
abbrev pub AllAnswered : String → List Arrival → Db → Type 0
AllAnswered p [] db = Unit
AllAnswered p (c ∷ cs) db =
    (c.update.provider_message_id ≡ p)
    × (is_ok (deliver c db).0 ≡ true)
    × AllAnswered p cs (deliver c db).1

abbrev pub target : Arrival → DeliveryAttemptState
target c = attempt_state c.update.status

module _ (c : Arrival) (db : Db) where
  abbrev pid : String
  pid = c.update.provider_message_id

  states-deliver :
      (s : DeliveryAttemptState) (found : List DeliveryAttemptRecord)
      → select (provider_is pid) db.attempts ≡ found
      → states pid db ≡ s ∷ []
      → IsSettled pid db
      → is_ok (deliver c db).0 ≡ true
      → states pid (deliver c db).1 ≡ advance s (target c) ∷ []
  unfolding apply_callback
  states-deliver s [] e h z k = absurd (ground arith)
  states-deliver s (a ∷ b ∷ l) e h z k = absurd (ground arith)
  states-deliver s (a ∷ []) e h z k = ground (
    arith,
    z s (target c) h,
    select-update (provider_is pid) (attempt_is a.id) (moved c.now c.update) db.attempts
        (λ r. refl),
  )

  -- the recorded events of the message, once the callback has been answered
  events-deliver :
      (s t : DeliveryAttemptState) (found : List DeliveryAttemptRecord)
      → select (provider_is pid) db.attempts ≡ found
      → states pid db ≡ s ∷ []
      → is_ok (deliver c db).0 ≡ true
      → any (same_event (some pid) t) (deliver c db).1.status_events ≡ true
      → (any (same_event (some pid) t) db.status_events ≡ true) ⊎ (t ≡ target c)
  unfolding apply_callback callback_event
  events-deliver s t [] e h k m = absurd (ground arith)
  events-deliver s t (a ∷ b ∷ l) e h k m = absurd (ground arith)
  events-deliver s t (a ∷ []) e h k m = ground (
    arith,
    any-append (same_event (some pid) t) db.status_events (callback_event c.event_id a c.update),
    state_code_inj (target c) t,
  )

  IsSettled-deliver :
      (s : DeliveryAttemptState)
      → states pid db ≡ s ∷ []
      → IsSettled pid db
      → is_ok (deliver c db).0 ≡ true
      → IsSettled pid (deliver c db).1
  IsSettled-deliver s h z k u t eu et =
      let next : states pid (deliver c db).1 ≡ advance s (target c) ∷ [] =
        states-deliver s _ refl h z k in
      elim (events-deliver s t _ refl h k et) [
        | inl old ↦ ground (arith, next, can_transition_kept s (target c) t (z s t h old))
        | inr new ↦ ground (arith, next, can_transition-advance s (target c))
      ]

abbrev StepAt : Arrival → Db → DeliveryAttemptState → String → Type 0
StepAt c db s p =
    states p db ≡ s ∷ []
    → IsSettled p db
    → (states p (deliver c db).1 ≡ advance s (target c) ∷ []) × IsSettled p (deliver c db).1

step_at :
    (p : String) (c : Arrival) (db : Db) (s : DeliveryAttemptState)
    → c.update.provider_message_id ≡ p
    → is_ok (deliver c db).0 ≡ true
    → StepAt c db s p
step_at p c db s e k =
    subst (StepAt c db s) e
      (λ h z. (states-deliver c db s _ refl h z k, IsSettled-deliver c db s h z k))

-- For a provider message with one stored attempt, where no recorded event is still a permitted
-- transition, the state after any answered callbacks for that message is the fold of the permitted
-- transitions over all of them, duplicates included.
pub states-deliver_all :
    (p : String) (cs : List Arrival) (db : Db) (s : DeliveryAttemptState)
    → states p db ≡ s ∷ []
    → IsSettled p db
    → AllAnswered p cs db
    → states p (deliver_all cs db) ≡ foldl advance s (map target cs) ∷ []
states-deliver_all p [] db s h z k = h
states-deliver_all p (c ∷ cs) db s h z k =
    let (next, settled) = step_at p c db s k.0 k.1 h z in
    states-deliver_all p cs (deliver c db).1 (advance s (target c)) next settled k.2

-- the furthest progress among some states
abbrev pub furthest : ℕ → List DeliveryAttemptState → ℕ
furthest n [] = n
furthest n (t ∷ ts) = furthest (max n (progress t)) ts

fold-furthest :
    (s : DeliveryAttemptState) (ts : List DeliveryAttemptState)
    → 1 ≤ progress s
    → s ≢ failed
    → All (λ t. t ≢ failed) ts
    → progress (foldl advance s ts) ≡ furthest (progress s) ts
fold-furthest s [] h k l = refl
fold-furthest s (t ∷ ts) h k l =
    let (e, n) = progress-advance s t h k l.0 in
    rw (fold-furthest (advance s t) ts (omega arith) n l.1, e)

-- For one stored attempt that the provider has accepted and that has not failed, under the same
-- conditions, callbacks other than failures leave it, in any order and with any repetition, as far
-- on as the furthest of them.
pub progress-deliver_all :
    (p : String) (cs : List Arrival) (db : Db) (s : DeliveryAttemptState)
    → states p db ≡ s ∷ []
    → IsSettled p db
    → AllAnswered p cs db
    → 1 ≤ progress s
    → s ≢ failed
    → All (λ t. t ≢ failed) (map target cs)
    → map progress (states p (deliver_all cs db)) ≡ furthest (progress s) (map target cs) ∷ []
progress-deliver_all p cs db s h z k n l m =
    rw (states-deliver_all p cs db s h z k) (rw (fold-furthest s (map target cs) n l m))
