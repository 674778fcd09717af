-- ===== src/Llm/Request.antt =====
-- What the adapters of src/piki/integrations/llm/openai_chat.py and openai_responses.py share: the
-- constructor's checks and the loop over attempts. What each attempt meets is an argument.
use buenpick_piki.Base.{
  ℕ, zero, suc, ◌+◌, ◌*◌, String, Bool, true, false, not, ◌&&◌, ◌||◌, List, [], ◌∷◌, ltb, leb, ◌==◌,
  truthy, fits, if◌then◌else◌,
}
use buenpick_piki.Base.Failure.{Result, ok, err, value_error, assertion_error}
use buenpick_piki.Base.Text.{strip}
use buenpick_piki.Composition.Engine.{
  CompositionResult, Composed, composed, adapter_error, LlmErrorCode, timeout, unavailable,
}

-- what one POST meets: a timeout, another error of the request, or a response
pub data Posted : Type 0 where
  timed_out : Posted
  request_error : Posted
  response : ℕ → String → Posted

pub data Action : Type 0 where
  post : Action
  -- a sleep, in milliseconds
  sleep : ℕ → Action

-- the constructor's checks
unfoldable pub validate_configuration : String → String → ℕ → Result (Unit {0})
validate_configuration api_key model max_attempts =
    if not (truthy (strip api_key))
    then err (value_error "LLM API key is required")
    else if not (truthy (strip model))
    then err (value_error "LLM model is required")
    else if ltb max_attempts 1
    then err (value_error "LLM max_attempts must be positive")
    else ok tt

abbrev pub retriable : Posted → Bool
retriable timed_out = true
retriable request_error = false
retriable (response s body) = s == 429 || s == 500 || s == 502 || s == 503

abbrev is_error : ℕ → Bool
is_error s = leb 400 s && leb s 599

-- the bounds of the fields
unfoldable pub validate_composition : CompositionResult → Result Composed
validate_composition r =
    if fits 1 4096 r.text
      && fits 1 255 r.provider_response_id
      && fits 1 255 r.model
      && fits 1 128 r.trace_id
    then ok (composed r)
    else err (value_error "field bounds")

module _ (map_http_error : ℕ → LlmErrorCode) (parse : String → Result Composed) (posts : ℕ → Posted)
    (max_attempts : ℕ) where
  -- the answer that ends the loop
  abbrev pub answer_of : Posted → Result Composed
  answer_of timed_out = ok (adapter_error timeout)
  answer_of request_error = ok (adapter_error unavailable)
  answer_of (response s body) =
      if is_error s then ok (adapter_error (map_http_error s)) else parse body

  -- the attempts that are left of `range(1, max_attempts + 1)`, and the number of the next one
  unfoldable pub attempts : ℕ → ℕ → Result Composed × List Action
  attempts zero attempt = (err (assertion_error "LLM request loop exhausted unexpectedly"), [])
  attempts (suc left) attempt =
      let again = attempts left (attempt + 1) in
      if retriable (posts attempt) && ltb attempt max_attempts
      then (again.0, post ∷ sleep (200 * attempt) ∷ again.1)
      else (answer_of (posts attempt), post ∷ [])
