-- ===== src/Config/Settings.antt =====
-- `Settings` of src/piki/core/config.py: the optional fields, the switches and the whole numbers with
-- their bounds. What a file contains is an argument; an environment variable is a text or absent.
use Prim.Native.String.{◌++◌ as append}
use buenpick_piki.Base.{ℕ, String, Bool, not, ◌&&◌, Option, none, some, leb, truthy, if◌then◌else◌}
use buenpick_piki.Base.Failure.{Result, ok, err, value_error}
use buenpick_piki.Base.Text.{strip}
use buenpick_piki.Sql.{◌>>=◌}

-- the fields that the validators and the factories of Meta, the language model and BuenPick read
pub record Settings : Type 0 where
  pub port : ℕ
  pub active_pick_ttl_seconds : ℕ
  pub conversation_lock_ttl_seconds : ℕ
  pub message_dedup_ttl_seconds : ℕ
  pub pending_action_ttl_seconds : ℕ
  pub llm_provider : Option String
  pub llm_model : Option String
  pub llm_api_key : Option String
  pub llm_api_key_file : Option String
  pub llm_max_attempts : ℕ
  pub llm_max_output_tokens : ℕ
  pub meta_app_id : Option String
  pub meta_app_secret : Option String
  pub meta_app_secret_file : Option String
  pub meta_waba_id : Option String
  pub meta_phone_number_id : Option String
  pub meta_access_token : Option String
  pub meta_access_token_file : Option String
  pub meta_webhook_verify_token : Option String
  pub meta_webhook_verify_token_file : Option String
  pub meta_graph_api_version : Option String
  pub meta_ingress_enabled : Bool
  pub conversation_enabled : Bool
  pub conversation_worker_enabled : Bool
  pub conversation_worker_claim_timeout_seconds : ℕ
  pub conversation_worker_max_attempts : ℕ
  pub buenpick_internal_api_token : Option String
  pub buenpick_internal_api_token_file : Option String
  pub buenpick_max_attempts : ℕ
  pub buenpick_allow_production : Bool
  pub local_console_enabled : Bool

-- `blank_optional_value`
unfoldable pub blank_optional_value : Option String → Option String
blank_optional_value none = none
blank_optional_value (some s) = if truthy (strip s) then some s else none

-- the validator of the optional fields, on each of them
unfoldable pub blank_optional_values : Settings → Settings
unfolding blank_optional_value
blank_optional_values s = record s {
  llm_provider = blank_optional_value s.llm_provider;
  llm_model = blank_optional_value s.llm_model;
  llm_api_key = blank_optional_value s.llm_api_key;
  llm_api_key_file = blank_optional_value s.llm_api_key_file;
  meta_app_id = blank_optional_value s.meta_app_id;
  meta_app_secret = blank_optional_value s.meta_app_secret;
  meta_app_secret_file = blank_optional_value s.meta_app_secret_file;
  meta_waba_id = blank_optional_value s.meta_waba_id;
  meta_phone_number_id = blank_optional_value s.meta_phone_number_id;
  meta_access_token = blank_optional_value s.meta_access_token;
  meta_access_token_file = blank_optional_value s.meta_access_token_file;
  meta_webhook_verify_token = blank_optional_value s.meta_webhook_verify_token;
  meta_webhook_verify_token_file = blank_optional_value s.meta_webhook_verify_token_file;
  meta_graph_api_version = blank_optional_value s.meta_graph_api_version;
  buenpick_internal_api_token = blank_optional_value s.buenpick_internal_api_token;
  buenpick_internal_api_token_file = blank_optional_value s.buenpick_internal_api_token_file;
}

abbrev within : ℕ → ℕ → ℕ → Bool
within lo hi n = leb lo n && leb n hi

-- the bounds of the whole numbers
unfoldable pub in_bounds : Settings → Bool
in_bounds s =
    within 1 65535 s.port
    && within 60 86400 s.active_pick_ttl_seconds
    && within 5 300 s.conversation_lock_ttl_seconds
    && within 3600 2592000 s.message_dedup_ttl_seconds
    && within 60 86400 s.pending_action_ttl_seconds
    && within 1 5 s.llm_max_attempts
    && within 64 4096 s.llm_max_output_tokens
    && within 30 3600 s.conversation_worker_claim_timeout_seconds
    && within 1 10 s.conversation_worker_max_attempts
    && within 1 5 s.buenpick_max_attempts

-- a value that has to be there
abbrev pub require : {A : Type 0} → Option A → String → Result A
require none what = err (value_error what)
require (some a) what = ok a

module _ (read_text : String → Result String) where
  abbrev secret_of : String → String → Result (Option String)
  secret_of name value =
      if truthy (strip value)
      then ok (some (strip value))
      else err (value_error (append name " secret file is empty"))

  -- `_resolved_secret(direct, secret_file, name=…)`
  unfoldable pub resolved_secret : Option String → Option String → String → Result (Option String)
  resolved_secret direct none name = ok direct
  resolved_secret direct (some file) name = read_text file >>= λ value. secret_of name value

  unfoldable pub resolved_meta_app_secret : Settings → Result (Option String)
  unfolding resolved_secret
  resolved_meta_app_secret s =
      resolved_secret s.meta_app_secret s.meta_app_secret_file "Meta app secret"

  unfoldable pub resolved_llm_api_key : Settings → Result (Option String)
  unfolding resolved_secret
  resolved_llm_api_key s = resolved_secret s.llm_api_key s.llm_api_key_file "LLM API key"

  unfoldable pub resolved_buenpick_internal_api_token : Settings → Result (Option String)
  unfolding resolved_secret
  resolved_buenpick_internal_api_token s =
      resolved_secret s.buenpick_internal_api_token s.buenpick_internal_api_token_file
        "BuenPick Internal API token"

  unfoldable pub resolved_meta_access_token : Settings → Result (Option String)
  unfolding resolved_secret
  resolved_meta_access_token s =
      resolved_secret s.meta_access_token s.meta_access_token_file "Meta access token"

  unfoldable pub resolved_meta_webhook_verify_token : Settings → Result (Option String)
  unfolding resolved_secret
  resolved_meta_webhook_verify_token s =
      resolved_secret s.meta_webhook_verify_token s.meta_webhook_verify_token_file
        "Meta webhook verify token"

  unfoldable pub validate_ingress : Settings → Result (Unit {0})
  unfolding resolved_meta_app_secret resolved_meta_webhook_verify_token
  validate_ingress s = resolved_meta_app_secret s >>= λ secret.
      require secret "Meta ingress requires an app secret" >>= λ _.
      resolved_meta_webhook_verify_token s >>= λ token.
      require token "Meta ingress requires a webhook verify token" >>= λ _.
      require s.meta_waba_id "Meta ingress requires a WABA ID" >>= λ _.
      require s.meta_phone_number_id "Meta ingress requires a phone number ID" >>= λ _. ok tt

  unfoldable pub validate_worker : Settings → Result (Unit {0})
  unfolding resolved_meta_access_token
  validate_worker s =
      if not s.conversation_enabled
      then err (value_error "conversation worker requires conversation runtime")
      else resolved_meta_access_token s >>= λ token.
          require token "conversation worker requires a Meta access token" >>= λ _.
          require s.meta_phone_number_id "conversation worker requires a Meta phone number ID"
          >>= λ _.
              require s.meta_graph_api_version
                "conversation worker requires a Meta Graph API version"
              >>= λ _. ok tt

  -- `validate_meta_ingress_configuration`
  unfoldable pub validate_meta_ingress_configuration : Settings → Result Settings
  unfolding validate_ingress validate_worker
  validate_meta_ingress_configuration s =
      (if s.meta_ingress_enabled then validate_ingress s else ok tt)
      >>= (λ _. (if s.conversation_worker_enabled then validate_worker s else ok tt) >>= λ _. ok s)

  -- `Settings()`, on what the environment gives for each field
  unfoldable pub get_settings : Settings → Result Settings
  unfolding blank_optional_values in_bounds validate_meta_ingress_configuration
  get_settings given =
      if in_bounds given
      then validate_meta_ingress_configuration (blank_optional_values given)
      else err (value_error "field bounds")
