-- ===== src/Llm/Chat.antt =====
-- `OpenAIChatCompletionsAdapter` of src/piki/integrations/llm/openai_chat.py. pydantic's reading of the
-- response is an argument.
use Prim.Native.String.{◌++◌ as append}
use buenpick_piki.Base.{
  ℕ, String, Bool, ◌||◌, Option, none, some, List, [], ◌∷◌, ◌==◌, truthy, if◌then◌else◌,
}
use buenpick_piki.Base.Failure.{Result, ok}
use buenpick_piki.Base.Text.{strip}
use buenpick_piki.Composition.Engine.{
  Role, user, assistant, ConversationTurn, CompositionRequest, Composed, adapter_error,
  LlmErrorCode, bad_request, unauthorized, rate_limited, unavailable, invalid_response,
}
use buenpick_piki.Llm.Request.{Posted, Action, validate_composition, attempts}

pub data ChatRole : Type 0 where
  system user_role assistant_role : ChatRole

abbrev pub role_code : ChatRole → ℕ
role_code system = 0
role_code user_role = 1
role_code assistant_role = 2

-- `messages[-1]["role"] == role`
abbrev pub same_role : ChatRole → ChatRole → Bool
same_role a b = role_code a == role_code b

pub record ChatMessage : Type 0 where
  pub role : ChatRole
  pub content : String

abbrev message : ChatRole → String → ChatMessage
message role content = record { role = role; content = content }

abbrev pub append_last : ChatMessage → ChatRole → String → List ChatMessage
append_last m role content =
    if same_role m.role role
    then message role (append m.content (append "\n\n" content)) ∷ []
    else m ∷ message role content ∷ []

-- `_append_message(messages, role, content)`; the list is never empty
unfoldable pub append_message : List ChatMessage → ChatRole → String → List ChatMessage
append_message [] role content = message role content ∷ []
append_message (m ∷ []) role content = append_last m role content
append_message (m ∷ n ∷ ms) role content = m ∷ append_message (n ∷ ms) role content

abbrev pub chat_role : Role → ChatRole
chat_role user = user_role
chat_role assistant = assistant_role

unfoldable pub append_turns : List ChatMessage → List ConversationTurn → List ChatMessage
unfolding append_message
append_turns ms [] = ms
append_turns ms (t ∷ ts) = append_turns (append_message ms (chat_role t.role) t.text) ts

abbrev pub instruction : String
instruction = "Redactá la respuesta final usando exclusivamente este paquete de evidencia:\n\n"

-- the messages of a request
unfoldable pub messages_of : CompositionRequest → List ChatMessage
unfolding append_turns append_message
messages_of r =
    append_message (append_turns (message system r.system_prompt ∷ []) r.conversation) user_role
      (append instruction r.evidence_prompt)

pub record ChatCompletionEnvelope : Type 0 where
  pub id : String
  pub model : String
  -- the content of each choice's message
  pub choices : List (Option String)

unfoldable pub map_http_error : ℕ → LlmErrorCode
map_http_error s =
    if s == 400
    then bad_request
    else if s == 401 || s == 403
    then unauthorized
    else if s == 429
    then rate_limited
    else unavailable

abbrev with_content : ChatCompletionEnvelope → String → Option String → Result Composed
with_content e trace_id none = ok (adapter_error invalid_response)
with_content e trace_id (some text) =
    if truthy (strip text)
    then validate_composition (record {
      text = strip text;
      provider_response_id = e.id;
      model = e.model;
      trace_id = trace_id;
    })
    else ok (adapter_error invalid_response)

abbrev with_choices : ChatCompletionEnvelope → String → List (Option String) → Result Composed
with_choices e trace_id [] = ok (adapter_error invalid_response)
with_choices e trace_id (content ∷ _) = with_content e trace_id content

abbrev with_envelope : String → Option ChatCompletionEnvelope → Result Composed
with_envelope trace_id none = ok (adapter_error invalid_response)
with_envelope trace_id (some e) = with_choices e trace_id e.choices

module _ (read : String → Option ChatCompletionEnvelope) where
  -- `_parse_response(response, trace_id)`
  unfoldable pub parse_response : String → String → Result Composed
  unfolding validate_composition
  parse_response trace_id body = with_envelope trace_id (read body)

  -- `compose(request)`, on what each attempt with the messages meets
  unfoldable pub compose :
      (List ChatMessage → ℕ → Posted) → ℕ → CompositionRequest → Result Composed × List Action
  unfolding attempts map_http_error parse_response messages_of
  compose posts max_attempts r =
      attempts map_http_error (parse_response r.trace_id) (posts (messages_of r)) max_attempts
        max_attempts 1
