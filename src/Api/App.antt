-- ===== src/Api/App.antt =====
-- `create_app` of src/piki/api/app.py: which parts an application has and closes, and what its webhook
-- is configured with; and the chat's status, src/piki/api/chat.py. The ingress and the orchestrator
-- are of any types; what their factories give is an argument.
use buenpick_piki.Base.{String, Bool, true, false, ◌&&◌, Option, none, some, List, [], ◌∷◌, ◌++◌}
use buenpick_piki.Base.Failure.{Result, ok}
use buenpick_piki.Sql.{◌>>=◌}
use buenpick_piki.Config.Settings.{
  Settings, resolved_meta_webhook_verify_token, resolved_meta_app_secret,
  resolved_buenpick_internal_api_token,
}

-- the parts that the end of the application closes
pub data Part : Type 0 where
  ingress orchestrator readiness : Part

pub data Router : Type 0 where
  webhook chat console : Router

module _ (I O : Type 0) where
  pub record App : Type 0 where
    pub verify_token : Option String
    pub app_secret : Option String
    pub expected_waba_id : Option String
    pub expected_phone_number_id : Option String
    pub runtime_ingress : Option I
    pub owned_ingress : Option I
    pub runtime_orchestrator : Option O
    pub owned_orchestrator : Option O
    pub routers : List Router

-- what runs and what is owned: a part that is wanted and not given is created
abbrev pub made : {A : Type 0} → Bool → Option A → Result A → Result (Option A × Option A)
made true none created = created >>= λ a. ok (some a, some a)
made true (some a) created = ok (some a, none)
made false given created = ok (given, none)

abbrev console_routers : Bool → List Router
console_routers true = chat ∷ console ∷ []
console_routers false = []

abbrev closed : {A : Type 0} → Part → Option A → List Part
closed part none = []
closed part (some a) = part ∷ []

pub record ChatRuntimeStatus : Type 0 where
  pub enabled : Bool
  pub llm_provider : Option String
  pub llm_model : Option String
  pub buenpick_api_configured : Bool
  pub meta_ingress_enabled : Bool

abbrev is_some : {A : Type 0} → Option A → Bool
is_some none = false
is_some (some a) = true

module _ {I O : Type 0} (read_text : String → Result String) where
  -- `create_app(settings, readiness, meta_ingress, conversation_orchestrator)`
  unfoldable pub create_app :
      Settings → Option I → Option O → Result I → Result O → Result (App I O)
  unfolding resolved_meta_webhook_verify_token resolved_meta_app_secret
  create_app s given_ingress given_orchestrator created_ingress created_orchestrator =
      made s.meta_ingress_enabled given_ingress created_ingress >>= (λ (i : Option I × Option I).
        made (s.conversation_enabled && s.local_console_enabled) given_orchestrator
          created_orchestrator
        >>= (λ (o : Option O × Option O).
            resolved_meta_webhook_verify_token read_text s >>= (λ token.
              resolved_meta_app_secret read_text s >>= (λ secret. ok (record {
                verify_token = token;
                app_secret = secret;
                expected_waba_id = s.meta_waba_id;
                expected_phone_number_id = s.meta_phone_number_id;
                runtime_ingress = i.0;
                owned_ingress = i.1;
                runtime_orchestrator = o.0;
                owned_orchestrator = o.1;
                routers = webhook ∷ console_routers s.local_console_enabled;
              })))))

module _ {I O : Type 0} where
  -- what `lifespan` closes at the end
  unfoldable pub closings : App I O → List Part
  closings a =
      closed ingress a.owned_ingress ++ closed orchestrator a.owned_orchestrator ++ readiness ∷ []

module _ {O : Type 0} (read_text : String → Result String) where
  -- `runtime_status()`
  unfoldable pub runtime_status : Settings → Option O → Result ChatRuntimeStatus
  unfolding resolved_buenpick_internal_api_token
  runtime_status s o = resolved_buenpick_internal_api_token read_text s >>= (λ token. ok (record {
    enabled = is_some o;
    llm_provider = s.llm_provider;
    llm_model = s.llm_model;
    buenpick_api_configured = is_some token;
    meta_ingress_enabled = s.meta_ingress_enabled;
  }))
