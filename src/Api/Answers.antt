-- ===== src/Api/Answers.antt =====
-- What a route of src/piki/api answers, where it does not let an exception through.
use buenpick_piki.Base.{ℕ, String}

-- what the function returns, or the `HTTPException` that it raises, with its status
pub data Http {ℓ} (A : Type ℓ) : Type ℓ where
  replies : A → Http A
  http_error : ℕ → String → Http A
