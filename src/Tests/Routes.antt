-- ===== src/Tests/Routes.antt =====
-- Requests of the HTTP routes, settings and the messages of a model.
use Prim.Native.String.{◌++◌ as append}
use buenpick_piki.Base.{
  ℕ, ◌+◌, ◌≡◌, ◌⊎◌, refl, String, true, false, Option, none, some, List, [], ◌∷◌, All, fits, truthy,
}
use buenpick_piki.Base.Failure.{Result, ok, err, value_error}
use buenpick_piki.Base.Text.{strip}
use buenpick_piki.Meta.Payload.{MetaWebhookEvents}
use buenpick_piki.Ingress.Service.{WebhookIngestResult}
use buenpick_piki.Composition.Engine.{CompositionRequest, user, assistant}
use buenpick_piki.Conversation.Service.{ConversationReply}
use buenpick_piki.Conversation.Intents.{explain_buenpick}
use buenpick_piki.Llm.Chat.{ChatMessage, messages_of}
use buenpick_piki.Llm.Alternates.{Alternates, Spoken, prompt, messages_of-Alternates}
use buenpick_piki.Api.Webhook.{Loaded, payload}
use buenpick_piki.Api.Signed.{Rejected, Signed, Ingested, received, receive_only_signed}
use buenpick_piki.Api.Chat.{
  ChatMessageRequest, Respond, responded, inbound_of, account, validate_chat_request,
}
use buenpick_piki.Api.Blank.{answer, send_message_branches}
use buenpick_piki.Config.Settings.{
  Settings, get_settings, blank_optional_values, in_bounds, validate_meta_ingress_configuration,
}
use buenpick_piki.Config.Factories.{create_meta_delivery_adapter}
use buenpick_piki.Config.Usable.{worker_settings_create_adapter}
use buenpick_piki.Tests.Hooks.{digest, ascii_digest, entries, read_time}

abbrev asked : CompositionRequest
asked = record {
  system_prompt = "Sos Piki.";
  evidence_prompt = "nada";
  conversation =
      record { role = user; text = "hola" }
      ∷ record { role = user; text = "busco pan" }
      ∷ record { role = assistant; text = "¿Dónde?" }
      ∷ [];
  trace_id = "trace";
}

messages_of-Alternates_example :
    (rest : List ChatMessage) × (messages_of asked ≡ prompt asked ∷ rest)
    × Alternates (messages_of asked)
    × All Spoken rest
messages_of-Alternates_example = messages_of-Alternates asked

abbrev counted : WebhookIngestResult
counted = record {
  accepted_messages = 1;
  duplicate_messages = 0;
  accepted_statuses = 0;
  duplicate_statuses = 0;
  ignored_statuses = 0;
}

abbrev loads : String → Loaded
loads body = payload (some entries)

abbrev counts : MetaWebhookEvents → ℕ → Result WebhookIngestResult × ℕ
counts events n = (ok counted, n + 1)

abbrev header : Option String
header = some (append "sha256=" (digest "secret" "body"))

receive_only_signed_example :
    Rejected digest read_time loads
      (some "waba")
      "100"
      "secret"
      counts
      "body"
      header
      0
      refl
      ascii_digest
      (received digest read_time loads
        (some "waba")
        "100"
        "secret"
        counts
        "body"
        header
        0
        refl
        ascii_digest)
    ⊎ (Signed digest read_time loads
          (some "waba")
          "100"
          "secret"
          counts
          "body"
          header
          0
          refl
          ascii_digest
        × Ingested digest read_time loads
            (some "waba")
            "100"
            "secret"
            counts
            "body"
            header
            0
            refl
            ascii_digest
            (received digest read_time loads
              (some "waba")
              "100"
              "secret"
              counts
              "body"
              header
              0
              refl
              ascii_digest))
receive_only_signed_example =
    receive_only_signed digest read_time loads (some "waba") "100" "secret" counts "body" header 0
      refl ascii_digest

abbrev chat : ChatMessageRequest
chat = record { conversation_id = "console"; message = "hola"; message_id = none }

abbrev said : ConversationReply
said = record {
  conversation_id = 1;
  text = "hola!";
  intent = explain_buenpick;
  trace_id = "trace";
  is_duplicate = false;
  used_fallback = false;
}

abbrev answers : Respond ℕ
answers m channel_account n = (ok said, n)

chat_valid : validate_chat_request chat ≡ true
unfolding validate_chat_request fits
chat_valid = refl

fresh_fits : fits 1 255 "web-1" ≡ true
unfolding fits
fresh_fits = refl

send_message_branches_example :
    ((truthy (strip "hola") ≡ true)
      → answer answers "web-1" 5 chat 0 ≡ responded (answers (inbound_of "web-1" 5 chat) account 0))
    × ((truthy (strip "hola") ≡ false)
        → answer answers "web-1" 5 chat 0
          ≡ (err (value_error "text messages require non-empty text"), 0))
send_message_branches_example = send_message_branches answers "web-1" 5 chat 0 chat_valid fresh_fits

abbrev pub given : Settings
given = record {
  port = 8000;
  active_pick_ttl_seconds = 1800;
  conversation_lock_ttl_seconds = 30;
  message_dedup_ttl_seconds = 604800;
  pending_action_ttl_seconds = 900;
  llm_provider = some " ";
  llm_model = none;
  llm_api_key = none;
  llm_api_key_file = none;
  llm_max_attempts = 2;
  llm_max_output_tokens = 500;
  meta_app_id = none;
  meta_app_secret = none;
  meta_app_secret_file = none;
  meta_waba_id = none;
  meta_phone_number_id = some "100";
  meta_access_token = none;
  meta_access_token_file = some "/run/secrets/token";
  meta_webhook_verify_token = none;
  meta_webhook_verify_token_file = none;
  meta_graph_api_version = some "v23.0";
  meta_ingress_enabled = false;
  conversation_enabled = true;
  conversation_worker_enabled = true;
  conversation_worker_claim_timeout_seconds = 120;
  conversation_worker_max_attempts = 3;
  buenpick_internal_api_token = none;
  buenpick_internal_api_token_file = none;
  buenpick_max_attempts = 3;
  buenpick_allow_production = false;
  local_console_enabled = false;
}

abbrev pub read_text : String → Result String
read_text file = ok " token\n"

gets : get_settings read_text given ≡ ok (blank_optional_values given)
unfolding get_settings in_bounds validate_meta_ingress_configuration blank_optional_values strip
gets = refl

enabled : (blank_optional_values given).conversation_worker_enabled ≡ true
unfolding blank_optional_values
enabled = refl

worker_settings_create_adapter_example :
    create_meta_delivery_adapter read_text (blank_optional_values given) ≡ ok tt
worker_settings_create_adapter_example =
    worker_settings_create_adapter read_text given (blank_optional_values given) gets enabled
