-- ===== src/Delivery/System.antt =====
-- Workers that run `IdempotentDeliveryService.send` of src/piki/delivery/service.py at the same
-- time, over one database. A transaction is one step, and so is the adapter's call; between any
-- two of them other workers run, provider callbacks arrive, and a worker may die.
use buenpick_piki.Base.{ℕ, ◌≡◌, List, [], ◌∷◌, ◌++◌, ◌==◌, if◌then◌else◌}
use buenpick_piki.Base.Failure.{Result, ok, err}
use buenpick_piki.Domain.Delivery.{DeliveryRequest, DeliveryResult}
use buenpick_piki.Db.Models.{Db}
use buenpick_piki.Meta.Status.{MetaStatusUpdate}
use buenpick_piki.Delivery.Types.{DeliveryClaim}
use buenpick_piki.Delivery.Store.{claim, finalize, apply_callback}

-- where a worker stands in `send`: nowhere, before the adapter's call, or before `finalize`
pub data Phase : Type 0 where
  idle : Phase
  claimed : ℕ → DeliveryRequest → Phase
  answered : ℕ → DeliveryResult → Phase

pub record System : Type 0 where
  pub db : Db
  pub calls : List DeliveryRequest
  pub phase : ℕ → Phase

abbrev pub at : (ℕ → Phase) → ℕ → Phase → ℕ → Phase
at f i p j = if i == j then p else f j

-- where `claim` leaves the worker
abbrev pub after_claim : DeliveryRequest → Result DeliveryClaim → Phase
after_claim request (ok c) = if c.created then claimed c.attempt.id request else idle
after_claim request (err _) = idle

-- where the adapter's answer leaves the worker
abbrev pub after_call : ℕ → Result DeliveryResult → Phase
after_call attempt_id (ok result) = answered attempt_id result
after_call attempt_id (err _) = idle

pub data Step (s : System) (t : System) : Type 0 where
  claims :
      (i attempt_id conversation_id now : ℕ) (request : DeliveryRequest)
      → s.phase i ≡ idle
      → t ≡ record s {
        db = (claim attempt_id conversation_id now request s.db).1;
        phase =
            at s.phase i
              (after_claim request (claim attempt_id conversation_id now request s.db).0);
      }
      → Step s t
  calls_adapter :
      (i attempt_id : ℕ) (request : DeliveryRequest) (answer : Result DeliveryResult)
      → s.phase i ≡ claimed attempt_id request
      → t ≡ record s {
        calls = s.calls ++ request ∷ [];
        phase = at s.phase i (after_call attempt_id answer);
      }
      → Step s t
  finalizes :
      (i attempt_id event_id now : ℕ) (result : DeliveryResult)
      → s.phase i ≡ answered attempt_id result
      → t ≡ record s {
        db = (finalize event_id now attempt_id result s.db).1;
        phase = at s.phase i idle;
      }
      → Step s t
  dies : (i : ℕ) → t ≡ record s { phase = at s.phase i idle } → Step s t
  calls_back :
      (event_id observed_at now : ℕ) (callback : MetaStatusUpdate)
      → t ≡ record s { db = (apply_callback event_id observed_at now callback s.db).1 }
      → Step s t

pub data Reach (s : System) : System → Type 0 where
  here : Reach s s
  next : {t u : System} → Reach s t → Step t u → Reach s u
