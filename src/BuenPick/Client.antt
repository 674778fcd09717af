-- ===== src/BuenPick/Client.antt =====
-- `BuenPickClient` of src/piki/integrations/buenpick/client.py. The transport is an argument: what
-- the attempt of each number meets. `response.json()` with pydantic's validation is one too.
use Prim.Native.String.{◌++◌ as append}
use buenpick_piki.Base.{
  ℕ, zero, suc, ◌+◌, ◌-◌, ◌*◌, ◌^◌, String, Bool, true, false, not, ◌&&◌, ◌||◌, Option, none, some,
  List, [], ◌∷◌, ltb, leb, ◌==◌, str_eq, truthy, truthy?, if◌then◌else◌,
}
use buenpick_piki.Base.Failure.{Result, ok, err, value_error, assertion_error}
use buenpick_piki.Base.Text.{strip}
use buenpick_piki.Base.Url.{quote}
use buenpick_piki.Domain.Tools.{
  ToolErrorCode, bad_request, unauthorized, not_found, rate_limited, timeout, upstream_unavailable,
  internal_error,
}
use buenpick_piki.BuenPick.Models.{
  AvailablePick, Commerce, CustomerOrder, PickSearchResponse, ClientError, Answer, returns, raises,
}

-- what one GET meets: a timeout, another error of the request, or a response
pub data Fetched : Type 0 where
  timed_out : Fetched
  request_error : Fetched
  response : ℕ → String → Fetched

-- what the client does: a GET of a path with parameters, or a sleep, in milliseconds
pub data Action : Type 0 where
  get : String → List (String × String) → Action
  sleep : ℕ → Action

abbrev client_error : ToolErrorCode → String → Option ℕ → ClientError
client_error c m s = record { code = c; user_safe_message = m; status_code = s }

-- `_map_http_error(status_code)`
unfoldable pub map_http_error : ℕ → ClientError
map_http_error s =
    if s == 400
    then client_error bad_request "La consulta enviada a BuenPick no es valida." (some s)
    else if s == 401
    then client_error unauthorized "No pude validar el acceso o la pertenencia del recurso."
        (some s)
    else if s == 404
    then client_error not_found "No pude confirmar que el recurso siga disponible." (some s)
    else if s == 429
    then client_error rate_limited
        "BuenPick esta recibiendo muchas consultas. Intenta nuevamente en breve." (some s)
    else client_error upstream_unavailable "BuenPick no esta disponible en este momento." (some s)

-- `response.is_error`
abbrev pub is_error : ℕ → Bool
is_error s = leb 400 s && leb s 599

abbrev retried_status : ℕ → Bool
retried_status s = s == 429 || s == 500 || s == 503

-- what is tried again while attempts are left
abbrev pub retriable : Fetched → Bool
retriable timed_out = true
retriable request_error = false
retriable (response s body) = retried_status s

abbrev pub validated : {A : Type 0} → Option A → Answer A
validated (some a) = returns a
validated none =
    raises (client_error internal_error "BuenPick devolvio una respuesta que no pude validar." none)

-- the answer that an outcome ends the loop with
unfoldable pub answer_of : {A : Type 0} → (String → Option A) → Fetched → Answer A
unfolding map_http_error
answer_of validate timed_out =
    raises (client_error timeout "No pude confirmar la informacion con BuenPick a tiempo." none)
answer_of validate request_error =
    raises (client_error upstream_unavailable "BuenPick no esta disponible en este momento." none)
answer_of validate (response s body) =
    if is_error s then raises (map_http_error s) else validated (validate body)

-- `0.1 * (2 ** (attempt - 1))` seconds
abbrev pub backoff : ℕ → ℕ
backoff attempt = 100 * 2 ^ (attempt - 1)

module _ {A : Type 0} (validate : String → Option A) (fetch : ℕ → Fetched) (max_attempts : ℕ)
    (path : String) (params : List (String × String)) where
  -- the attempts that are left of `range(1, max_attempts + 1)`, and the number of the next one
  unfoldable pub attempts : ℕ → ℕ → Result (Answer A) × List Action
  unfolding answer_of
  attempts zero attempt = (err (assertion_error "request loop exhausted unexpectedly"), [])
  attempts (suc left) attempt =
      let again = attempts left (attempt + 1) in
      if retriable (fetch attempt) && ltb attempt max_attempts
      then (again.0, get path params ∷ sleep (backoff attempt) ∷ again.1)
      else (ok (answer_of validate (fetch attempt)), get path params ∷ [])

  -- `_request(path, model, params)`
  unfoldable pub request : Result (Answer A) × List Action
  unfolding attempts
  request = attempts max_attempts 1

-- `text and text.strip()`
abbrev pub given : Option String → Bool
given none = false
given (some s) = truthy s && truthy (strip s)

abbrev pub stripped : Option String → String
stripped none = String.[]
stripped (some s) = strip s

abbrev pub param : String → Option String → List (String × String) → List (String × String)
param key value rest = if given value then (key, stripped value) ∷ rest else rest

-- the parameters: the phone where it is truthy, else the reference
unfoldable pub order_params : Option String → Option String → List (String × String)
order_params phone reference =
    if truthy? phone
    then ("customer_phone", stripped phone) ∷ []
    else ("customer_reference", stripped reference) ∷ []

module _ (fetch : ℕ → Fetched) (max_attempts : ℕ) where
  -- `search_available_picks(query, commerce_id)`
  unfoldable pub search_available_picks :
      (String → Option PickSearchResponse)
      → Option String
      → Option String
      → Result (Answer PickSearchResponse) × List Action
  unfolding request
  search_available_picks validate query commerce_id =
      request validate fetch max_attempts "picks/search"
        (param "q" query (param "commerce_id" commerce_id []))

  -- `get_available_pick(pick_id)`
  unfoldable pub get_available_pick :
      (String → Option AvailablePick) → String → Result (Answer AvailablePick) × List Action
  unfolding request
  get_available_pick validate pick_id =
      request validate fetch max_attempts (append "picks/" (quote pick_id)) []

  -- `get_commerce(commerce_id)`
  unfoldable pub get_commerce :
      (String → Option Commerce) → String → Result (Answer Commerce) × List Action
  unfolding request
  get_commerce validate commerce_id =
      request validate fetch max_attempts (append "commerces/" (quote commerce_id)) []

  -- `get_customer_order(order_id, customer_phone=…, customer_reference=…)`
  unfoldable pub get_customer_order :
      (String → Option CustomerOrder)
      → String
      → Option String
      → Option String
      → Result (Answer CustomerOrder) × List Action
  unfolding request order_params
  get_customer_order validate order_id phone reference =
      if (if given phone then not (given reference) else given reference)
      then request validate fetch max_attempts (append "orders/" (quote order_id))
          (order_params phone reference)
      else (
        ok (
            raises
              (client_error bad_request "La orden requiere una unica prueba de pertenencia." none)),
        [],
      )

abbrev production_host : String
production_host = "api.buenpick.com.ar"

abbrev is_production : Option String → Bool
is_production none = false
is_production (some host) = str_eq host production_host

-- the constructor's checks, on what `urlparse(base_url).hostname` gives
unfoldable pub validate_configuration : Option String → String → ℕ → Bool → Result (Unit {0})
validate_configuration host token max_attempts allow_production =
    if is_production host && not allow_production
    then err (value_error "production BuenPick access is disabled")
    else if not (truthy (strip token))
    then err (value_error "BuenPick token is required")
    else if ltb max_attempts 1
    then err (value_error "max_attempts must be at least one")
    else ok tt
