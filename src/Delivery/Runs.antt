-- ===== src/Delivery/Runs.antt =====
-- A run of `send` (Delivery/Service.antt) is a run of one worker of Delivery/System.antt.
use buenpick_piki.Base.{ℕ, ◌≡◌, refl, true, [], ◌∷◌, ◌++◌, arith, Bool-cases, inl, inr}
use buenpick_piki.Base.Failure.{Result, ok, err}
use buenpick_piki.Domain.Delivery.{DeliveryRequest, DeliveryResult}
use buenpick_piki.Db.Models.{Db}
use buenpick_piki.Delivery.Types.{DeliveryClaim}
use buenpick_piki.Delivery.Store.{claim, finalize}
use buenpick_piki.Delivery.Service.{World, Readings, send, existing_result, replied}
use buenpick_piki.Delivery.System.{
  Phase, idle, claimed, System, Step, claims, calls_adapter, finalizes, dies, calls_back, Reach,
  here, next, after_call, after_claim, at,
}

module _ (adapter : DeliveryRequest → Result DeliveryResult) (i : ℕ) where
  -- a step of one worker, with its adapter; and a run of such steps
  abbrev pub Own : {s s' : System} → Step s s' → Type 0
  Own (claims j _ _ _ _ _ _) = j ≡ i
  Own (calls_adapter j _ asked answer _ _) = (j ≡ i) × (answer ≡ adapter asked)
  Own (finalizes j _ _ _ _ _ _) = j ≡ i
  Own (dies _ _) = ⊥
  Own (calls_back _ _ _ _ _) = ⊥

  abbrev pub OwnRun : {s s' : System} → Reach s s' → Type 0
  OwnRun here = Unit {0}
  OwnRun (next run step) = OwnRun run × Own step

module _ (adapter : DeliveryRequest → Result DeliveryResult) (t : Readings) (conversation_id : ℕ)
    (request : DeliveryRequest) (w : World) (i : ℕ) (phase : ℕ → Phase)
    (ready : phase i ≡ idle) where
  abbrev before : System
  before = record { db = w.db; calls = w.adapter_calls; phase = phase }

  abbrev claim_reply : Result DeliveryClaim × Db
  claim_reply = claim t.attempt_id conversation_id t.now request w.db

  abbrev after : World
  after = (send adapter t conversation_id request w).1

  -- the worker has claimed; has called the adapter; has finalized
  abbrev s1 : System
  s1 = record before { db = claim_reply.1; phase = at phase i (after_claim request claim_reply.0) }

  abbrev s2 : ℕ → System
  s2 attempt_id = record s1 {
    calls = w.adapter_calls ++ request ∷ [];
    phase = at s1.phase i (after_call attempt_id (adapter request));
  }

  abbrev s3 : ℕ → DeliveryResult → System
  s3 attempt_id result = record (s2 attempt_id) {
    db = (finalize t.event_id t.now attempt_id result claim_reply.1).1;
    phase = at (s2 attempt_id).phase i idle;
  }

  reach1 : Reach before s1
  reach1 = next here (claims i t.attempt_id conversation_id t.now request ready refl)

  reach2 :
      (attempt_id : ℕ)
      → after_claim request claim_reply.0 ≡ claimed attempt_id request
      → Reach before (s2 attempt_id)
  reach2 a h = next reach1 (calls_adapter i a request (adapter request) (ground arith) refl)

  reach3 :
      (attempt_id : ℕ) (result : DeliveryResult)
      → after_claim request claim_reply.0 ≡ claimed attempt_id request
      → adapter request ≡ ok result
      → Reach before (s3 attempt_id result)
  reach3 a r h k = next (reach2 a h) (finalizes i a t.event_id t.now r (ground arith) refl)

  abbrev Refines : Type 0
  Refines =
      (s : System) × (run : Reach before s) × OwnRun adapter i run
      × (s.phase i ≡ idle)
      × (s.db ≡ after.db)
      × (s.calls ≡ after.adapter_calls)

  replay_world :
      (c : DeliveryClaim) (db : Db)
      → ((replied t (record w { db = db }) (existing_result c.attempt)).1.db ≡ db)
        × ((replied t (record w { db = db }) (existing_result c.attempt)).1.adapter_calls
            ≡ w.adapter_calls)
  replay_world c db = ground arith

  called :
      (c : DeliveryClaim) (db : Db) (answer : Result DeliveryResult)
      → claim_reply ≡ (ok c, db)
      → adapter request ≡ answer
      → c.created ≡ true
      → Refines
  unfolding send reach3 reach2 reach1
  called c db (err e) h k new = (
    s2 c.attempt.id,
    reach2 c.attempt.id (ground arith),
    ((tt, refl), (refl, refl)),
    ground arith,
    ground arith,
    ground arith,
  )
  called c db (ok r) h k new = (
    s3 c.attempt.id r,
    reach3 c.attempt.id r (ground arith) k,
    (((tt, refl), (refl, refl)), refl),
    ground arith,
    ground arith,
    ground arith,
  )

  refines :
      (reply : Result DeliveryClaim × Db) (answer : Result DeliveryResult)
      → claim_reply ≡ reply
      → adapter request ≡ answer
      → Refines
  unfolding send reach1
  refines (err e, db) answer h k =
      (s1, reach1, (tt, refl), ground arith, ground arith, ground arith)
  refines (ok c, db) answer h k = elim (Bool-cases c.created) [
    | inr old ↦ (
      s1,
      reach1,
      (tt, refl),
      ground arith,
      ground (arith, replay_world c db),
      ground (arith, replay_world c db),
    )
    | inl new ↦ called c db answer h k new
  ]

  -- For a run of `send`, in any world and with any adapter, and a worker that is idle, there is a
  -- run of steps of that worker alone, in which the adapter answers as it does, that ends with the
  -- worker idle again and leaves the tables and the adapter calls of `send`.
  pub send_refines :
      (s : System) × (run : Reach before s) × OwnRun adapter i run
      × (s.phase i ≡ idle)
      × (s.db ≡ (send adapter t conversation_id request w).1.db)
      × (s.calls ≡ (send adapter t conversation_id request w).1.adapter_calls)
  send_refines = refines claim_reply (adapter request) refl refl
