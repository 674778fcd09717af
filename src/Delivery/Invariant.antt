-- ===== src/Delivery/Invariant.antt =====
-- Well-formed stores of src/piki/delivery/service.py: unique keys, and attempts whose fields
-- agree with their state. Every operation keeps them.
use buenpick_piki.Base.{
  ℕ, String, ◌≤◌, ◌≡◌, ◌≢◌, refl, Bool, true, false, Option, none, some, List, [], ◌∷◌, ◌++◌, arith,
  any, count, ap, inl, inr, ◌==◌, ◌⊎◌, All, All-append, Bool-cases, fits, fits?, truthy?, str_eq,
}
use buenpick_piki.Base.Failure.{ok}
use buenpick_piki.Sql.{select, update}
use buenpick_piki.Sql.Laws.{
  unique-insert_number, unique-insert_text, count-update, All-update, All-update_one, find,
  find_same, find_of_select,
}
use buenpick_piki.Db.Models.{
  Db, DeliveryAttemptRecord, DeliveryAttemptState, pending, unknown, failed,
}
use buenpick_piki.Domain.Delivery.{
  DeliveryStatus, DeliveryRequest, DeliveryResult, validate_content, validate_delivery_truth,
}
use buenpick_piki.Meta.Status.{MetaStatusUpdate, validate_error_shape}
use buenpick_piki.Delivery.Types.{attempt_state, snapshot}
use buenpick_piki.Delivery.Store.{
  claim, finalize, apply_callback, attempt_is, key_is, provider_is, can_transition, moved,
  finalized, pending_attempt, new_attempt,
}
use buenpick_piki.Delivery.Service.{existing_result, existing}

-- what the fields of an attempt say in each state
abbrev StateShape : DeliveryAttemptState → DeliveryAttemptRecord → Type 0
StateShape pending a = (a.provider_message_id ≡ none) × (a.error_code ≡ none)
StateShape unknown a = truthy? a.error_code ≡ true
StateShape failed a = truthy? a.error_code ≡ true
StateShape _ a = (truthy? a.provider_message_id ≡ true) × (a.error_code ≡ none)

pub record IsAttempt (a : DeliveryAttemptRecord) : Type 0 where
  pub shape : StateShape a.status a
  pub provider_fits : fits? 0 255 a.provider_message_id ≡ true
  pub code_fits : fits? 0 100 a.error_code ≡ true
  pub message_fits : fits? 0 500 a.error_message ≡ true
  pub trace_fits : fits 1 128 a.trace_id ≡ true

pub record IsStore (rows : List DeliveryAttemptRecord) : Type 0 where
  pub one_id : (i : ℕ) → count (attempt_is i) rows ≤ 1
  pub one_key : (k : String) → count (key_is k) rows ≤ 1
  pub attempts_valid : All IsAttempt rows

code_text : fits 0 100 "DELIVERY_ALREADY_IN_PROGRESS" ≡ true
unfolding fits
code_text = refl

message_text : fits 0 500 "Ya existe un intento de entrega en curso." ≡ true
unfolding fits
message_text = refl

truthy_code : (o : Option String) → o ≢ none → o ≢ some "" → truthy? o ≡ true
truthy_code none h k = absurd (h refl)
truthy_code (some String.[]) h k = absurd (k refl)
truthy_code (some (String.◌∷◌ c s)) h k = refl

-- A well-formed attempt has an answer for a repeated `send`, with its trace: a pending one as
-- unknown and in progress, any other with the stored state, provider message and error code.
pub existing_result_total :
    (a : DeliveryAttemptRecord)
    → IsAttempt a
    → (r : DeliveryResult) × (existing_result (snapshot a) ≡ ok r)
      × (a.status ≡ pending
          → (r.status ≡ DeliveryStatus.unknown)
            × (r.error_code ≡ some "DELIVERY_ALREADY_IN_PROGRESS"))
      × (a.status ≢ pending
          → (attempt_state r.status ≡ a.status)
            × (r.provider_message_id ≡ a.provider_message_id)
            × (r.error_code ≡ a.error_code))
      × (r.trace_id ≡ a.trace_id)
unfolding existing_result snapshot
existing_result_total a v = (
  existing a.status (snapshot a),
  ground (arith, code_text, message_text),
  ground arith,
  ground arith,
  ground arith,
)

claim_shape :
    (i conv now : ℕ) (r : DeliveryRequest)
    → validate_content r ≡ ok r
    → IsAttempt (new_attempt i conv now r)
unfolding new_attempt validate_content
claim_shape i conv now r h = ground arith

finalized_shape :
    (now : ℕ) (r : DeliveryResult) (a : DeliveryAttemptRecord)
    → validate_delivery_truth r ≡ ok r
    → IsAttempt a
    → IsAttempt (finalized now r a)
unfolding validate_delivery_truth
finalized_shape now r a h v = ground arith

moved_shape :
    (now : ℕ) (c : MetaStatusUpdate) (a : DeliveryAttemptRecord)
    → validate_error_shape c ≡ ok c
    → c.error_code ≢ some ""
    → can_transition a.status (attempt_state c.status) ≡ true
    → IsAttempt a
    → IsAttempt (moved now c a)
unfolding validate_error_shape can_transition
moved_shape now c a h k t v = ground (arith, truthy_code c.error_code)

IsStore-update :
    (q : DeliveryAttemptRecord → Bool) (f : DeliveryAttemptRecord → DeliveryAttemptRecord)
    (rows : List DeliveryAttemptRecord)
    → ((a : DeliveryAttemptRecord)
        → ((f a).id ≡ a.id) × ((f a).idempotency_key ≡ a.idempotency_key))
    → All IsAttempt (update q f rows)
    → IsStore rows
    → IsStore (update q f rows)
IsStore-update q f rows same h v = record {
  one_id = λ i.
      rw (count-update (attempt_is i) q f rows (λ r. ap (λ (n : ℕ). n == i) (same r).0))
        (v.one_id i);
  one_key = λ k.
      rw (count-update (key_is k) q f rows (λ r. ap (λ (s : String). str_eq s k) (same r).1))
        (v.one_key k);
  attempts_valid = h;
}

IsStore-insert :
    (i conv now : ℕ) (r : DeliveryRequest) (rows : List DeliveryAttemptRecord)
    → validate_content r ≡ ok r
    → any (attempt_is i) rows ≡ false
    → any (key_is r.idempotency_key) rows ≡ false
    → IsStore rows
    → IsStore (rows ++ new_attempt i conv now r ∷ [])
unfolding new_attempt
IsStore-insert i conv now r rows valid new_id new_key v = record {
  one_id = λ j.
      unique-insert_number (λ (a : DeliveryAttemptRecord). a.id) rows (new_attempt i conv now r) j
        new_id (v.one_id j);
  one_key = λ k.
      unique-insert_text (λ (a : DeliveryAttemptRecord). a.idempotency_key) rows
        (new_attempt i conv now r) k new_key (v.one_key k);
  attempts_valid =
      All-append IsAttempt rows _ v.attempts_valid (claim_shape i conv now r valid, tt);
}

-- `claim` leaves the attempts alone, or adds one under a new key and a new identifier.
pub claim_effect :
    (i conv now : ℕ) (r : DeliveryRequest) (db : Db)
    → ((claim i conv now r db).1.attempts ≡ db.attempts)
      ⊎ ((any (attempt_is i) db.attempts ≡ false)
          × (any (key_is r.idempotency_key) db.attempts ≡ false)
          × ((claim i conv now r db).1.attempts ≡ db.attempts ++ new_attempt i conv now r ∷ []))
unfolding claim
claim_effect i conv now r db = ground arith

-- `claim` of a valid request keeps the attempts well formed, whether it inserts, finds or raises.
pub claim-IsStore :
    (attempt_id conversation_id now : ℕ) (request : DeliveryRequest) (db : Db)
    → validate_content request ≡ ok request
    → IsStore db.attempts
    → IsStore (claim attempt_id conversation_id now request db).1.attempts
claim-IsStore i conv now r db valid v = elim (claim_effect i conv now r db) [
  | inl e ↦ rw e v
  | inr (new_id, new_key, e) ↦ rw e (IsStore-insert i conv now r db.attempts valid new_id new_key v)
]

pub finalize_effect :
    (event_id now i : ℕ) (r : DeliveryResult) (db : Db)
    → ((finalize event_id now i r db).1.attempts ≡ db.attempts)
      ⊎ ((finalize event_id now i r db).1.attempts
          ≡ update (pending_attempt i) (finalized now r) db.attempts)
unfolding finalize
finalize_effect event_id now i r db = ground arith

-- `finalize` with a valid result keeps the attempts well formed, also where it raises.
pub finalize-IsStore :
    (event_id now attempt_id : ℕ) (result : DeliveryResult) (db : Db)
    → validate_delivery_truth result ≡ ok result
    → IsStore db.attempts
    → IsStore (finalize event_id now attempt_id result db).1.attempts
finalize-IsStore event_id now i r db valid v = elim (finalize_effect event_id now i r db) [
  | inl e ↦ rw e v
  | inr e ↦ rw e (
      IsStore-update (pending_attempt i) (finalized now r) db.attempts (λ a. (refl, refl))
        (All-update IsAttempt (pending_attempt i) (finalized now r) db.attempts
          (λ a p. finalized_shape now r a valid) v.attempts_valid)
        v)
]

pub callback_effect :
    (event_id observed_at now : ℕ) (c : MetaStatusUpdate) (db : Db)
    (found : List DeliveryAttemptRecord)
    → select (provider_is c.provider_message_id) db.attempts ≡ found
    → ((apply_callback event_id observed_at now c db).1.attempts ≡ db.attempts)
      ⊎ ((b : DeliveryAttemptRecord) × (find (provider_is c.provider_message_id) db.attempts
            ≡ some b)
          × (can_transition b.status (attempt_state c.status) ≡ true)
          × ((apply_callback event_id observed_at now c db).1.attempts
              ≡ update (attempt_is b.id) (moved now c) db.attempts))
unfolding apply_callback
callback_effect event_id observed_at now c db [] h = ground arith
callback_effect event_id observed_at now c db (a ∷ b ∷ l) h = ground arith
callback_effect event_id observed_at now c db (a ∷ []) h =
    elim (Bool-cases (can_transition a.status (attempt_state c.status))) [
      | inl e ↦ ground (arith, find_of_select (provider_is c.provider_message_id) db.attempts h)
      | inr e ↦ ground arith
    ]

-- A valid callback whose error code is not the empty text keeps the attempts well formed, whether
-- it is applied, ignored or raises.
pub apply_callback-IsStore :
    (event_id observed_at now : ℕ) (callback : MetaStatusUpdate) (db : Db)
    → validate_error_shape callback ≡ ok callback
    → callback.error_code ≢ some ""
    → IsStore db.attempts
    → IsStore (apply_callback event_id observed_at now callback db).1.attempts
apply_callback-IsStore event_id observed_at now c db valid code v =
    elim (callback_effect event_id observed_at now c db _ refl) [
      | inl e ↦ rw e v
      | inr (b, found, can, e) ↦ rw e (
          IsStore-update (attempt_is b.id) (moved now c) db.attempts (λ a. (refl, refl))
            (All-update_one IsAttempt (attempt_is b.id) (moved now c) db.attempts b
              (find_same _ (attempt_is b.id) db.attempts found (ground arith) (v.one_id b.id))
              (v.one_id b.id) (moved_shape now c b valid code can) v.attempts_valid)
            v)
    ]
