-- ===== src/Tests/Deliveries.antt =====
-- Runs of the idempotent delivery of src/piki/delivery/service.py.
use buenpick_piki.Base.{◌≡◌, ◌≤◌, refl, true, [], ◌∷◌, any, count, arith, fits}
use buenpick_piki.Base.Failure.{ok}
use buenpick_piki.Domain.Delivery.{DeliveryRequest, validate_content, validate_delivery_truth}
use buenpick_piki.Db.Models.{has_conversation}
use buenpick_piki.Delivery.Store.{claim, key_is}
use buenpick_piki.Delivery.Service.{send, World, Readings}
use buenpick_piki.Delivery.System.{
  idle, claimed, System, Reach, here, next, claims, calls_adapter, after_claim, after_call, at,
}
use buenpick_piki.Delivery.Once.{IsStart, call_for, adapter_called_once}
use buenpick_piki.Delivery.Runs.{OwnRun, send_refines}
use buenpick_piki.Delivery.Invariant.{IsAttempt, IsStore}
use buenpick_piki.Tests.Samples.{no_attempts, one_attempt, attempt, request, sent_result}

abbrev start : System
start = record { db = no_attempts; calls = []; phase = λ i. idle }

abbrev claimed_once : System
claimed_once = record start {
  db = (claim 7 1 100 request no_attempts).1;
  phase = at start.phase 0 (after_claim request (claim 7 1 100 request no_attempts).0);
}

-- a second worker claims the same key
abbrev claimed_twice : System
claimed_twice = record claimed_once {
  db = (claim 8 1 101 request claimed_once.db).1;
  phase = at claimed_once.phase 1 (after_claim request (claim 8 1 101 request claimed_once.db).0);
}

abbrev called : System
called = record claimed_twice {
  calls = request ∷ [];
  phase = at claimed_twice.phase 0 (after_call 7 (ok sent_result));
}

holds_claim : claimed_twice.phase 0 ≡ claimed 7 request
unfolding claim any has_conversation
holds_claim = refl

-- the second worker is sent back with the first one's attempt
second_waits : claimed_twice.phase 1 ≡ idle
unfolding claim any has_conversation
second_waits = refl

run : Reach start called
run =
    next
      (next (next here (claims 0 7 1 100 request refl refl)) (claims 1 8 1 101 request refl refl))
      (calls_adapter 0 7 request (ok sent_result) holds_claim refl)

start-IsStart : IsStart start
start-IsStart = record { no_calls = refl; all_idle = λ i. refl }

adapter_called_once_example :
    (count (call_for "key") called.calls ≤ 1)
    × (any (call_for "key") called.calls ≡ true → any (key_is "key") called.db.attempts ≡ true)
adapter_called_once_example = adapter_called_once start-IsStart run "key"

abbrev world : World
world = record { db = no_attempts; adapter_calls = []; emitted = [] }

abbrev readings : Readings
readings = record { attempt_id = 7; event_id = 70; started_at = 90; now = 100 }

send_refines_example :
    (s : System) × (run : Reach (record { db = no_attempts; calls = []; phase = λ i. idle }) s)
    × OwnRun (λ r. ok sent_result) 0 run
    × (s.phase 0 ≡ idle)
    × (s.db ≡ (send (λ r. ok sent_result) readings 1 request world).1.db)
    × (s.calls ≡ (send (λ r. ok sent_result) readings 1 request world).1.adapter_calls)
send_refines_example =
    send_refines (λ r. ok sent_result) readings 1 request world 0 (λ i. idle) refl

attempt-IsAttempt : IsAttempt attempt
unfolding fits
attempt-IsAttempt = record {
  shape = (refl, refl);
  provider_fits = refl;
  code_fits = refl;
  message_fits = refl;
  trace_fits = refl;
}

abbrev pub other_request : DeliveryRequest
other_request = record request { idempotency_key = "other" }

pub request_valid : validate_content other_request ≡ ok other_request
unfolding validate_content fits
request_valid = refl

pub result_valid : validate_delivery_truth sent_result ≡ ok sent_result
unfolding validate_delivery_truth fits
result_valid = refl

pub one_attempt-IsStore : IsStore one_attempt.attempts
unfolding count
one_attempt-IsStore = record {
  one_id = λ i. ground arith;
  one_key = λ k. ground arith;
  attempts_valid = (attempt-IsAttempt, tt);
}
