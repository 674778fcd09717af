-- ===== src/Config/Factories.antt =====
-- The factories that check the settings: `create_meta_delivery_adapter` of
-- src/piki/integrations/meta/delivery.py, `create_llm_adapter` of src/piki/integrations/llm, and
-- `create_buenpick_client` of src/piki/integrations/buenpick/client.py. An HTTP client is not modelled:
-- a factory gives what its constructor checks.
use buenpick_piki.Base.{String, Bool, ◌||◌, Option, none, some, str_eq, if◌then◌else◌}
use buenpick_piki.Base.Failure.{Result, ok, err, value_error}
use buenpick_piki.Sql.{◌>>=◌}
use buenpick_piki.Config.Settings.{
  Settings, require, resolved_meta_access_token, resolved_llm_api_key,
  resolved_buenpick_internal_api_token,
}
use buenpick_piki.Meta.Adapter.{validate_configuration as validate_meta}
use buenpick_piki.Llm.Request.{validate_configuration as validate_llm}
use buenpick_piki.BuenPick.Client.{validate_configuration as validate_buenpick}

pub data LlmKind : Type 0 where
  responses chat : LlmKind

abbrev is_chat : String → Bool
is_chat provider = str_eq provider "nvidia_nim" || str_eq provider "openai_chat"

module _ (read_text : String → Result String) where
  -- `create_meta_delivery_adapter(settings)`
  unfoldable pub create_meta_delivery_adapter : Settings → Result (Unit {0})
  unfolding resolved_meta_access_token validate_meta
  create_meta_delivery_adapter s =
      require s.meta_graph_api_version "Meta Graph API version is required" >>= λ version.
      require s.meta_phone_number_id "Meta phone number ID is required" >>= λ phone.
      resolved_meta_access_token read_text s >>= λ token.
      require token "Meta access token is required" >>= λ access_token.
      validate_meta version phone access_token

  -- `create_openai_chat_adapter` and `create_openai_responses_adapter`, after the provider's check
  unfoldable pub create_openai_adapter : Settings → Result (Unit {0})
  unfolding resolved_llm_api_key validate_llm
  create_openai_adapter s = resolved_llm_api_key read_text s >>= λ key.
      require key "LLM API key is required" >>= λ api_key.
      require s.llm_model "LLM model is required" >>= λ model.
      validate_llm api_key model s.llm_max_attempts

  abbrev by_provider : Settings → Option String → Result LlmKind
  by_provider s none = err (value_error "unsupported or missing LLM provider")
  by_provider s (some provider) =
      if str_eq provider "openai"
      then create_openai_adapter s >>= (λ _. ok responses)
      else if is_chat provider
      then create_openai_adapter s >>= (λ _. ok chat)
      else err (value_error "unsupported or missing LLM provider")

  -- `create_llm_adapter(settings)`
  unfoldable pub create_llm_adapter : Settings → Result LlmKind
  unfolding create_openai_adapter
  create_llm_adapter s = by_provider s s.llm_provider

  -- `create_buenpick_client(settings)`, where `hostname` is that of the base URL
  unfoldable pub create_buenpick_client : Option String → Settings → Result (Unit {0})
  unfolding resolved_buenpick_internal_api_token validate_buenpick
  create_buenpick_client hostname s = resolved_buenpick_internal_api_token read_text s >>= λ token.
      require token "BuenPick token is required" >>= λ secret.
      validate_buenpick hostname secret s.buenpick_max_attempts s.buenpick_allow_production
