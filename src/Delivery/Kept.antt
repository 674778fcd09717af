-- ===== src/Delivery/Kept.antt =====
-- Whatever valid operations of the store of src/piki/delivery/service.py run one after another, its
-- attempts stay well formed.
use buenpick_piki.Base.{ℕ, ◌≡◌, ◌≢◌, some}
use buenpick_piki.Base.Failure.{ok}
use buenpick_piki.Db.Models.{Db}
use buenpick_piki.Domain.Delivery.{
  DeliveryRequest, DeliveryResult, validate_content, validate_delivery_truth,
}
use buenpick_piki.Meta.Status.{MetaStatusUpdate, validate_error_shape}
use buenpick_piki.Delivery.Store.{claim, finalize, apply_callback}
use buenpick_piki.Delivery.Invariant.{
  IsStore, claim-IsStore, finalize-IsStore, apply_callback-IsStore,
}

-- the tables that operations with valid arguments lead to, those that raise included
pub data Operated (db : Db) : Db → Type 0 where
  untouched : Operated db db
  claims :
      {db' : Db} (attempt_id conversation_id now : ℕ) (request : DeliveryRequest)
      → validate_content request ≡ ok request
      → Operated db db'
      → Operated db (claim attempt_id conversation_id now request db').1
  finalizes :
      {db' : Db} (event_id now attempt_id : ℕ) (result : DeliveryResult)
      → validate_delivery_truth result ≡ ok result
      → Operated db db'
      → Operated db (finalize event_id now attempt_id result db').1
  applies :
      {db' : Db} (event_id observed_at now : ℕ) (callback : MetaStatusUpdate)
      → validate_error_shape callback ≡ ok callback
      → callback.error_code ≢ some ""
      → Operated db db'
      → Operated db (apply_callback event_id observed_at now callback db').1

-- Whatever claims of valid requests, finalizations with valid results and valid callbacks whose
-- error code is not the empty text run one after another, whether they succeed or raise, the
-- attempts stay well formed: identifiers and keys are unique, and each attempt's fields agree with
-- its state.
pub Operated-IsStore : (db db' : Db) → Operated db db' → IsStore db.attempts → IsStore db'.attempts
Operated-IsStore db _ untouched v = v
Operated-IsStore db _ (claims i conversation now r valid before) v =
    claim-IsStore i conversation now r _ valid (Operated-IsStore db _ before v)
Operated-IsStore db _ (finalizes event_id now i r valid before) v =
    finalize-IsStore event_id now i r _ valid (Operated-IsStore db _ before v)
Operated-IsStore db _ (applies event_id observed_at now c valid code before) v =
    apply_callback-IsStore event_id observed_at now c _ valid code (Operated-IsStore db _ before v)
