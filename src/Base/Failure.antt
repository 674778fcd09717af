-- ===== src/Base/Failure.antt =====
-- The exceptions that the modelled code raises, or lets through, and results that carry them.
use Prim.Native.String.{String}
use mathlib.Core.Bool.{Bool, true, false}

-- An exception by its class. `integrity_error`, `no_result_found` and `multiple_results_found`
-- are SQLAlchemy's; `other` is any exception of code that is not modelled, by its class name.
pub data Failure : Type 0 where
  value_error : String → Failure
  runtime_error : String → Failure
  assertion_error : String → Failure
  conversation_busy : String → Failure
  ingress_retryable : String → Failure
  meta_webhook : String → Failure
  integrity_error : Failure
  no_result_found : Failure
  multiple_results_found : Failure
  other : String → Failure

pub data Result {ℓ} (A : Type ℓ) : Type ℓ where
  ok : A → Result A
  err : Failure → Result A

-- `try` on a whole result
abbrev pub map_result {ℓ κ} : {A : Type ℓ} {B : Type κ} → (A → B) → Result A → Result B
map_result f (ok a) = ok (f a)
map_result f (err e) = err e

abbrev pub is_ok {ℓ} : {A : Type ℓ} → Result A → Bool
is_ok (ok _) = true
is_ok (err _) = false
