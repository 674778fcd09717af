-- ===== src/Conversation/Sent.antt =====
-- What the delivery of src/piki/delivery/service.py leaves of the messages: all of them.
use buenpick_piki.Base.{ℕ, ◌≡◌, refl, Bool, true, false, List, arith, ◌∙◌, if◌then◌else◌}
use buenpick_piki.Base.Failure.{Result, ok, err}
use buenpick_piki.Domain.Delivery.{DeliveryRequest, DeliveryResult}
use buenpick_piki.Db.Models.{Db, MessageRecord}
use buenpick_piki.Delivery.Store.{claim, finalize}
use buenpick_piki.Delivery.Types.{DeliveryClaim}
use buenpick_piki.Delivery.Service as Delivery
use buenpick_piki.Delivery.Service.{send, after_adapter, after_finalize, replied}

claim_messages :
    (attempt_id conversation_id now : ℕ) (request : DeliveryRequest) (db : Db)
    → (claim attempt_id conversation_id now request db).1.messages ≡ db.messages
unfolding claim
claim_messages attempt_id conversation_id now request db = ground arith

finalize_messages :
    (event_id now attempt_id : ℕ) (result : DeliveryResult) (db : Db)
    → (finalize event_id now attempt_id result db).1.messages ≡ db.messages
unfolding finalize
finalize_messages event_id now attempt_id result db = ground arith

-- what `send` leaves of the messages
module _ (adapter : DeliveryRequest → Result DeliveryResult) (t : Delivery.Readings)
    (request : DeliveryRequest) where
  replied_messages :
      (w : Delivery.World) (x : Result DeliveryResult)
      → (replied t w x).1.db.messages ≡ w.db.messages
  replied_messages w (ok r) = refl
  replied_messages w (err e) = refl

  finalized_messages :
      (w : Delivery.World) (result : DeliveryResult) (o : Result (Unit {0}) × Db)
      → o.1.messages ≡ w.db.messages
      → (after_finalize t w result o).1.db.messages ≡ w.db.messages
  finalized_messages w result (ok _, db) h = h
  finalized_messages w result (err e, db) h = h

  adapter_messages :
      (w : Delivery.World) (i : ℕ) (x : Result DeliveryResult)
      → (after_adapter t w i x).1.db.messages ≡ w.db.messages
  adapter_messages w i (err e) = refl
  adapter_messages w i (ok result) =
      finalized_messages w result _ (finalize_messages t.event_id t.now i result w.db)

  created_messages :
      (created : Bool) (w w' : Delivery.World) (i : ℕ) (x y : Result DeliveryResult)
      (rows : List MessageRecord)
      → w.db.messages ≡ rows
      → w'.db.messages ≡ rows
      → (if created then after_adapter t w i x else replied t w' y).1.db.messages ≡ rows
  created_messages true w w' i x y rows h k = adapter_messages w i x ∙ h
  created_messages false w w' i x y rows h k = replied_messages w' y ∙ k

  claimed_messages :
      (w : Delivery.World) (o : Result DeliveryClaim × Db)
      → o.1.messages ≡ w.db.messages
      → (Delivery.after_claim adapter t request w o).1.db.messages ≡ w.db.messages
  claimed_messages w (err e, db) h = h
  claimed_messages w (ok c, db) h =
      created_messages c.created _ _ c.attempt.id _ _ w.db.messages h h

  pub send_messages :
      (conversation : ℕ) (w : Delivery.World)
      → (send adapter t conversation request w).1.db.messages ≡ w.db.messages
  unfolding send
  send_messages conversation w =
      claimed_messages w (claim t.attempt_id conversation t.now request w.db)
        (claim_messages t.attempt_id conversation t.now request w.db)
