-- ===== src/Api/Signed.antt =====
-- What reaches the ingress through the route of src/piki/api/meta_webhook.py.
use Prim.Native.String.{◌++◌ as append}
use buenpick_piki.Base.{
  ◌≡◌, ◌≢◌, ◌⊎◌, inl, inr, refl, String, Bool, true, false, Option, some, List, text_len,
}
use buenpick_piki.Base.Failure.{
  Failure, Result, ok, err, value_error, runtime_error, assertion_error, conversation_busy,
  ingress_retryable, meta_webhook, integrity_error, no_result_found, multiple_results_found, other,
}
use buenpick_piki.Base.Text.{is_ascii}
use buenpick_piki.Meta.Payload.{MetaEntry, MetaWebhookEvents}
use buenpick_piki.Meta.Webhook.{TimeRead, verify_signature, normalize_webhook}
use buenpick_piki.Meta.Signed.{verify_signature_iff}
use buenpick_piki.Ingress.Service.{WebhookIngestResult}
use buenpick_piki.Ingress.Normalized.{Sound, normalize_webhook-Sound}
use buenpick_piki.Api.Answers.{replies, http_error}
use buenpick_piki.Api.Webhook.{
  Loaded, undecodable, no_text, no_object, payload, Ingest, Answer, ingested, normalized, read,
  verified, receive,
}

module _ {W : Type 0} (hexdigest : String → String → String) (read_time : String → TimeRead)
    (loads : String → Loaded) (waba : Option String) (phone secret : String) (ingest : Ingest W)
    (body : String) (header : Option String) (w : W)
    (digest_length : text_len (hexdigest secret body) ≡ 64)
    (digest_ascii : is_ascii (hexdigest secret body) ≡ true) where
  -- nothing is done and nothing is reported as ingested
  abbrev pub Rejected : Answer W → Type 0
  Rejected done = (done.1 ≡ w) × ((r : WebhookIngestResult) → done.0 ≢ ok (replies r))

  -- the answer is the ingress's, for sound events
  abbrev pub Ingested : Answer W → Type 0
  Ingested done =
      (e : MetaWebhookEvents) × Sound read_time waba phone e
      × (done ≡ ingested hexdigest read_time loads waba (some phone) (ingest e w))

  failed : (e : Failure) → Rejected (err e, w)
  failed e = (refl, λ r h. absurd (cc))

  refused : (status : _) (detail : String) → Rejected (ok (http_error status detail), w)
  refused status detail = (refl, λ r h. absurd (cc))

  not_normalized :
      (e : Failure)
      → Rejected (normalized hexdigest read_time loads waba (some phone) ingest w (err e))
  not_normalized (meta_webhook s) = refused 400 _
  not_normalized (value_error s) = failed (value_error s)
  not_normalized (runtime_error s) = failed (runtime_error s)
  not_normalized (assertion_error s) = failed (assertion_error s)
  not_normalized (conversation_busy s) = failed (conversation_busy s)
  not_normalized (ingress_retryable s) = failed (ingress_retryable s)
  not_normalized integrity_error = failed integrity_error
  not_normalized no_result_found = failed no_result_found
  not_normalized multiple_results_found = failed multiple_results_found
  not_normalized (other s) = failed (other s)

  normal :
      (entries : Option (List MetaEntry)) (events : Result MetaWebhookEvents)
      → normalize_webhook read_time waba (some phone) entries ≡ events
      → Rejected (normalized hexdigest read_time loads waba (some phone) ingest w events)
        ⊎ Ingested (normalized hexdigest read_time loads waba (some phone) ingest w events)
  normal entries (err e) h = inl (not_normalized e)
  normal entries (ok e) h = inr (e, normalize_webhook-Sound read_time waba phone entries e h, refl)

  reads :
      (l : Loaded)
      → Rejected (read hexdigest read_time loads waba (some phone) ingest w l)
        ⊎ Ingested (read hexdigest read_time loads waba (some phone) ingest w l)
  reads undecodable = inl (refused 400 _)
  reads no_text = inl (failed (other "UnicodeDecodeError"))
  reads no_object = inl (refused 400 _)
  reads (payload entries) =
      normal entries (normalize_webhook read_time waba (some phone) entries) refl

  -- the header is that of the body under the secret
  abbrev pub Signed : Type 0
  Signed = header ≡ some (append "sha256=" (hexdigest secret body))

  signed :
      (done : Answer W)
      → Signed
      → Rejected done ⊎ Ingested done
      → Rejected done ⊎ (Signed × Ingested done)
  signed done s (inl r) = inl r
  signed done s (inr i) = inr (s, i)

  verifies :
      (v : Result Bool)
      → verify_signature hexdigest body header secret ≡ v
      → Rejected (verified hexdigest read_time loads waba (some phone) ingest w body v)
        ⊎ (Signed × Ingested (verified hexdigest read_time loads waba (some phone) ingest w body v))
  verifies (err e) h = inl (failed e)
  verifies (ok false) h = inl (refused 401 _)
  verifies (ok true) h =
      let is_signed =
        (verify_signature_iff hexdigest body secret digest_length digest_ascii header).0 h in
      signed _ is_signed (reads (loads body))

  abbrev pub received : Answer W
  received =
      receive hexdigest read_time loads waba (some phone) (some secret) (some ingest) body header w

  -- Where the secret and the ingress are configured, a phone number is expected and the digest is
  -- an ASCII text of 64 characters: `receive` either does nothing and reports nothing as ingested,
  -- or the signature header is the one of the body and the answer is the ingress's for events of
  -- which every message and status carries the expected phone number and passes its validator.
  pub receive_only_signed : Rejected received ⊎ (Signed × Ingested received)
  unfolding receive
  receive_only_signed = verifies (verify_signature hexdigest body header secret) refl
