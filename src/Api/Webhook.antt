-- ===== src/Api/Webhook.antt =====
-- The routes of src/piki/api/meta_webhook.py. `json.loads` with pydantic's reading of the payload,
-- HMAC-SHA-256, `datetime.fromtimestamp` and the ingress are arguments.
use buenpick_piki.Base.{String, Bool, true, false, Option, none, some, List}
use buenpick_piki.Base.Failure.{Result, ok, err, meta_webhook, ingress_retryable, other}
use buenpick_piki.Meta.Payload.{MetaEntry, MetaWebhookEvents}
use buenpick_piki.Meta.Webhook.{TimeRead, verify_challenge, verify_signature, normalize_webhook}
use buenpick_piki.Ingress.Service.{WebhookIngestResult}
use buenpick_piki.Api.Answers.{Http, replies, http_error}

-- what `json.loads` makes of a body: a JSONDecodeError, the UnicodeDecodeError of bytes that are no
-- text, a value that is no object, or an object, with its entries where pydantic reads a payload
pub data Loaded : Type 0 where
  undecodable no_text no_object : Loaded
  payload : Option (List MetaEntry) → Loaded

abbrev forbidden : Http String
forbidden = http_error 403 "webhook verification failed"

abbrev challenged : String → Result Bool → Result (Http String)
challenged value (ok true) = ok (replies value)
challenged value (ok false) = ok forbidden
challenged value (err e) = err e

-- `challenge(mode, provided_token, challenge_value)`
unfoldable pub challenge :
    Option String → Option String → Option String → Option String → Result (Http String)
unfolding verify_challenge
challenge none mode provided value = ok (http_error 503 "webhook not configured")
challenge (some expected) mode provided none = ok forbidden
challenge (some expected) mode provided (some value) =
    challenged value (verify_challenge mode provided expected)

abbrev pub Ingest : Type 0 → Type 0
Ingest W = MetaWebhookEvents → W → Result WebhookIngestResult × W

abbrev pub Answer : Type 0 → Type 0
Answer W = Result (Http WebhookIngestResult) × W

abbrev pub invalid : Http WebhookIngestResult
invalid = http_error 400 "invalid webhook payload"

module _ (hexdigest : String → String → String) (read_time : String → TimeRead)
    (loads : String → Loaded) (expected_waba_id expected_phone_number_id : Option String)
    {W : Type 0} where
  abbrev pub ingested : Result WebhookIngestResult × W → Answer W
  ingested (ok r, w) = (ok (replies r), w)
  ingested (err (ingress_retryable _), w) =
      (ok (http_error 503 "webhook ingress temporarily unavailable"), w)
  ingested (err e, w) = (err e, w)

  abbrev pub normalized : Ingest W → W → Result MetaWebhookEvents → Answer W
  normalized ingest w (ok events) = ingested (ingest events w)
  normalized ingest w (err (meta_webhook _)) = (ok invalid, w)
  normalized ingest w (err e) = (err e, w)

  abbrev pub read : Ingest W → W → Loaded → Answer W
  read ingest w undecodable = (ok invalid, w)
  read ingest w no_text = (err (other "UnicodeDecodeError"), w)
  read ingest w no_object = (ok invalid, w)
  read ingest w (payload entries) =
      normalized ingest w
        (normalize_webhook read_time expected_waba_id expected_phone_number_id entries)

  abbrev pub verified : Ingest W → W → String → Result Bool → Answer W
  verified ingest w body (ok true) = read ingest w (loads body)
  verified ingest w body (ok false) = (ok (http_error 401 "invalid webhook signature"), w)
  verified ingest w body (err e) = (err e, w)

  abbrev not_ready : W → Answer W
  not_ready w = (ok (http_error 503 "webhook not ready"), w)

  -- `receive(request)`, with the secret and the ingress where they are configured
  unfoldable pub receive : Option String → Option (Ingest W) → String → Option String → W → Answer W
  unfolding verify_signature normalize_webhook
  receive none ingest body header w = not_ready w
  receive (some secret) none body header w = not_ready w
  receive (some secret) (some ingest) body header w =
      verified ingest w body (verify_signature hexdigest body header secret)
