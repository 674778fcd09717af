-- ===== src/Delivery/Lifecycle.antt =====
-- The lifecycle of a delivery attempt: `_can_transition` of src/piki/delivery/service.py against
-- an order on the states.
use buenpick_piki.Base.{ℕ, ◌≤◌, ◌<◌, ◌≡◌, ◌≢◌, refl, ◌↔◌, true, false, arith, if◌then◌else◌}
use Prim.Native.Nat.{max}
use buenpick_piki.Db.Models.{
  DeliveryAttemptState, pending, unknown, accepted, sent, delivered, read, failed,
}
use buenpick_piki.Delivery.Store.{can_transition}

-- how far a delivery has come
abbrev pub progress : DeliveryAttemptState → ℕ
progress pending = 0
progress unknown = 0
progress accepted = 1
progress sent = 2
progress delivered = 3
progress read = 4
progress failed = 4

-- A transition is permitted exactly from an accepted attempt to a state further on, except that a
-- delivered attempt does not fail.
pub can_transition_iff :
    (a b : DeliveryAttemptState)
    → (can_transition a b ≡ true)
      ↔ ((1 ≤ progress a) × (progress a < progress b) × ((a ≡ delivered) → (b ≢ failed)))
unfolding can_transition
can_transition_iff pending b = (λ h. absurd (cc), λ h. absurd (omega (arith, h.0)))
can_transition_iff a b = ground arith

-- the state after a callback
abbrev pub advance : DeliveryAttemptState → DeliveryAttemptState → DeliveryAttemptState
advance a b = if can_transition a b then b else a

pub can_transition_trans :
    (a b c : DeliveryAttemptState)
    → can_transition a b ≡ true
    → can_transition b c ≡ true
    → can_transition a c ≡ true
unfolding can_transition
can_transition_trans pending b c h k = absurd (cc)
can_transition_trans a b c h k = ground arith

-- a state that a callback has been offered is not permitted again
pub can_transition-advance : (a b : DeliveryAttemptState) → can_transition (advance a b) b ≡ false
unfolding can_transition
can_transition-advance pending b = refl
can_transition-advance a b = ground arith

pub progress-advance :
    (a b : DeliveryAttemptState)
    → 1 ≤ progress a
    → a ≢ failed
    → b ≢ failed
    → (progress (advance a b) ≡ max (progress a) (progress b)) × (advance a b ≢ failed)
unfolding can_transition
progress-advance pending b h k l = absurd (omega arith)
progress-advance a b h k l = ground arith

-- a transition that was not permitted is not permitted after a step either
pub can_transition_kept :
    (a b t : DeliveryAttemptState)
    → can_transition a t ≡ false
    → can_transition (advance a b) t ≡ false
can_transition_kept a b t h = ground (arith, can_transition_trans a b t)
