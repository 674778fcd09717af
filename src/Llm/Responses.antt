-- ===== src/Llm/Responses.antt =====
-- `OpenAIResponsesAdapter` of src/piki/integrations/llm/openai_responses.py. pydantic's reading of the
-- response is an argument.
use Prim.Native.String.{◌++◌ as append}
use buenpick_piki.Base.{
  ℕ, String, Bool, true, false, not, Option, none, some, List, [], ◌∷◌, ◌++◌, ◌==◌, str_eq, truthy,
  if◌then◌else◌,
}
use buenpick_piki.Base.Failure.{Result, ok}
use buenpick_piki.Base.Text.{strip, join}
use buenpick_piki.Composition.Engine.{
  user, ConversationTurn, CompositionRequest, Composed, adapter_error, LlmErrorCode, bad_request,
  unauthorized, rate_limited, unavailable, invalid_response,
}
use buenpick_piki.Llm.Request.{Posted, Action, validate_composition, attempts}
use buenpick_piki.Llm.Chat.{instruction}

pub data OutputContent : Type 0 where
  output_text : Option String → OutputContent
  refusal : OutputContent

pub record OutputItem : Type 0 where
  pub kind : String
  pub content : List OutputContent

pub record ResponsesEnvelope : Type 0 where
  pub id : String
  pub model : String
  pub status : String
  pub output : List OutputItem

-- `input` of the body
unfoldable pub input_of : CompositionRequest → List ConversationTurn
input_of r =
    r.conversation ++ record { role = user; text = append instruction r.evidence_prompt } ∷ []

unfoldable pub map_http_error : ℕ → LlmErrorCode
map_http_error s =
    if s == 400
    then bad_request
    else if s == 401
    then unauthorized
    else if s == 429
    then rate_limited
    else unavailable

-- whether a part is refused, and the stripped texts
pub record Parts : Type 0 where
  pub refused : Bool
  pub texts : List String

abbrev add_text : String → Parts → Parts
add_text s p = if truthy s then record p { texts = strip s ∷ p.texts } else p

abbrev add_content : OutputContent → Parts → Parts
add_content (output_text none) p = p
add_content (output_text (some s)) p = add_text s p
add_content refusal p = record p { refused = true }

unfoldable pub parts_of : List OutputContent → Parts → Parts
parts_of [] p = p
parts_of (c ∷ cs) p = add_content c (parts_of cs p)

unfoldable pub parts_of_items : List OutputItem → Parts
unfolding parts_of
parts_of_items [] = record { refused = false; texts = [] }
parts_of_items (i ∷ is) =
    let rest = parts_of_items is in
    if str_eq i.kind "message" then parts_of i.content rest else rest

unfoldable pub not_empty : List String → List String
not_empty [] = []
not_empty (s ∷ ss) = let rest = not_empty ss in if truthy s then s ∷ rest else rest

abbrev text_of : Parts → String
text_of p = strip (join "\n" (not_empty p.texts))

abbrev with_parts : ResponsesEnvelope → String → Parts → Result Composed
with_parts e trace_id p =
    if p.refused
    then ok (adapter_error LlmErrorCode.refused)
    else if not (truthy (text_of p))
    then ok (adapter_error invalid_response)
    else validate_composition (record {
      text = text_of p;
      provider_response_id = e.id;
      model = e.model;
      trace_id = trace_id;
    })

abbrev with_envelope : String → Option ResponsesEnvelope → Result Composed
with_envelope trace_id none = ok (adapter_error invalid_response)
with_envelope trace_id (some e) =
    if not (str_eq e.status "completed")
    then ok (adapter_error invalid_response)
    else with_parts e trace_id (parts_of_items e.output)

module _ (read : String → Option ResponsesEnvelope) where
  -- `_parse_response(response, trace_id)`
  unfoldable pub parse_response : String → String → Result Composed
  unfolding validate_composition parts_of_items not_empty
  parse_response trace_id body = with_envelope trace_id (read body)

  -- `compose(request)`, on what each attempt with the instructions and the input meets
  unfoldable pub compose :
      (String → List ConversationTurn → ℕ → Posted)
      → ℕ
      → CompositionRequest
      → Result Composed × List Action
  unfolding attempts map_http_error parse_response input_of
  compose posts max_attempts r =
      attempts map_http_error (parse_response r.trace_id) (posts r.system_prompt (input_of r))
        max_attempts max_attempts 1
