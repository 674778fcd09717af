-- ===== src/Composition/Engine.antt =====
-- `ResponseComposer` of src/piki/composition/service.py and `ResponseEngine` of
-- src/piki/composition/engine.py. The adapter's call, the system prompt and the rendering of the
-- evidence by Jinja are arguments. The lifecycle records are in bounds, as a ContextPacket's trace is.
use buenpick_piki.Base.{
  ℕ, String, Bool, true, false, ◌&&◌, Option, none, some, List, [], ◌∷◌, ◌++◌, length, leb, fits,
  fits?, if◌then◌else◌,
}
use buenpick_piki.Base.Failure.{Result, ok, err, value_error}
use buenpick_piki.Domain.Tools.{
  ContextPacket, ResponseMode, deterministic, jinja, jinja_llm, non_commercial_llm,
}
use buenpick_piki.Observability.{
  LifecycleRecord, EventOutcome, context_built, template_rendered, llm_started, llm_finished,
  grounding_checked, lifecycle_record,
}
use buenpick_piki.Composition.Patterns.{Unicode}
use buenpick_piki.Composition.Grounding.{
  GroundingFailure, GroundingResult, failure_value, validate, factual_fallback,
}

pub data Role : Type 0 where
  user assistant : Role

pub record ConversationTurn : Type 0 where
  pub role : Role
  pub text : String

pub record CompositionRequest : Type 0 where
  pub system_prompt : String
  pub evidence_prompt : String
  pub conversation : List ConversationTurn
  pub trace_id : String

pub record CompositionResult : Type 0 where
  pub text : String
  pub provider_response_id : String
  pub model : String
  pub trace_id : String

pub data LlmErrorCode : Type 0 where
  bad_request unauthorized rate_limited timeout unavailable refused invalid_response : LlmErrorCode

abbrev pub llm_error_value : LlmErrorCode → String
llm_error_value bad_request = "bad_request"
llm_error_value unauthorized = "unauthorized"
llm_error_value rate_limited = "rate_limited"
llm_error_value timeout = "timeout"
llm_error_value unavailable = "unavailable"
llm_error_value refused = "refused"
llm_error_value invalid_response = "invalid_response"

-- what an adapter returns, or the `LLMAdapterError` that it raises
pub data Composed : Type 0 where
  composed : CompositionResult → Composed
  adapter_error : LlmErrorCode → Composed

unfoldable pub validate_request : CompositionRequest → Result CompositionRequest
validate_request r =
    if fits 1 12000 r.system_prompt
      && fits 1 30000 r.evidence_prompt
      && leb (length r.conversation) 20
      && fits 1 128 r.trace_id
    then ok r
    else err (value_error "field bounds")

pub record ResponseOutcome : Type 0 where
  pub text : String
  pub mode : ResponseMode
  pub used_fallback : Bool
  pub grounding_failures : List GroundingFailure
  pub provider_response_id : Option String
  pub trace_id : String

unfoldable pub validate_outcome : ResponseOutcome → Result ResponseOutcome
validate_outcome o =
    if fits 1 4096 o.text && fits? 0 255 o.provider_response_id && fits 1 128 o.trace_id
    then ok o
    else err (value_error "field bounds")

-- the readings of the clocks, in the order in which they are taken
pub record EngineReadings : Type 0 where
  pub context_now : ℕ
  pub llm_started_at : ℕ
  pub llm_now : ℕ
  pub render_started_at : ℕ
  pub render_now : ℕ
  pub finished_now : ℕ
  pub grounding_started_at : ℕ
  pub grounding_now : ℕ

module _ (u : Unicode) (system_prompt : String) (render : ContextPacket → String)
    (adapter : CompositionRequest → Result Composed) (t : EngineReadings) where
  abbrev asks : Result CompositionRequest → Result Composed
  asks (ok request) = adapter request
  asks (err e) = err e

  abbrev pub request_of : ContextPacket → List ConversationTurn → CompositionRequest
  request_of p conversation = record {
    system_prompt = system_prompt;
    evidence_prompt = render p;
    conversation = conversation;
    trace_id = p.trace_id;
  }

  abbrev compose_rendered :
      ContextPacket → List ConversationTurn → Result Composed × List LifecycleRecord
  compose_rendered p conversation = (
    asks (validate_request (request_of p conversation)),
    lifecycle_record t.render_now template_rendered p.trace_id "jinja" EventOutcome.succeeded
          (some t.render_started_at) none none none
        ∷ [],
  )

  abbrev not_permitted : Result Composed × List LifecycleRecord
  not_permitted = (err (value_error "response mode does not permit LLM composition"), [])

  abbrev composes :
      ResponseMode → ContextPacket → List ConversationTurn → Result Composed × List LifecycleRecord
  composes jinja_llm p conversation = compose_rendered p conversation
  composes non_commercial_llm p conversation = compose_rendered p conversation
  composes deterministic p conversation = not_permitted
  composes jinja p conversation = not_permitted

  -- `ResponseComposer.compose(packet, conversation=…)`
  unfoldable pub compose :
      ContextPacket → List ConversationTurn → Result Composed × List LifecycleRecord
  unfolding validate_request
  compose p conversation = composes p.response_mode p conversation

  abbrev pub fallback_outcome : ContextPacket → List GroundingFailure → ResponseOutcome
  fallback_outcome p failures = record {
    text = factual_fallback u p;
    mode = p.response_mode;
    used_fallback = true;
    grounding_failures = failures;
    provider_response_id = none;
    trace_id = p.trace_id;
  }

  -- `_fallback(packet, failures)`
  unfoldable pub fallback : ContextPacket → List GroundingFailure → Result ResponseOutcome
  unfolding validate_outcome factual_fallback
  fallback p failures = validate_outcome (fallback_outcome p failures)

  abbrev first_value : List GroundingFailure → Option String
  first_value [] = none
  first_value (f ∷ _) = some (failure_value f)

  abbrev checked : List GroundingFailure → EventOutcome
  checked [] = EventOutcome.succeeded
  checked (_ ∷ _) = EventOutcome.blocked

  -- `_emit_grounding`
  unfoldable pub emit_grounding : ContextPacket → List GroundingFailure → LifecycleRecord
  emit_grounding p failures =
      lifecycle_record t.grounding_now grounding_checked p.trace_id "grounding" (checked failures)
        (some t.grounding_started_at) (first_value failures) none none

  abbrev pub said : ContextPacket → Option String → String → ResponseOutcome
  said p provider text = record {
    text = text;
    mode = p.response_mode;
    used_fallback = false;
    grounding_failures = [];
    provider_response_id = provider;
    trace_id = p.trace_id;
  }

  abbrev pub settled :
      ContextPacket → Option String → GroundingResult → Option String → Result ResponseOutcome
  settled p provider g none = fallback p g.failures
  settled p provider g (some text) =
      if g.safe then validate_outcome (said p provider text) else fallback p g.failures

  -- a text that is checked: itself, or the fallback
  unfoldable pub check_text :
      ContextPacket → Option String → String → Result ResponseOutcome × List LifecycleRecord
  unfolding validate emit_grounding fallback validate_outcome
  check_text p provider text =
      let g = validate u text p in (settled p provider g g.text, emit_grounding p g.failures ∷ [])

  abbrev pub llm_finishes : ContextPacket → EventOutcome → Option String → LifecycleRecord
  llm_finishes p outcome code =
      lifecycle_record t.finished_now llm_finished p.trace_id "llm" outcome (some t.llm_started_at)
        code none none

  abbrev pub after_compose :
      ContextPacket
      → Result Composed × List LifecycleRecord
      → Result ResponseOutcome × List LifecycleRecord
  after_compose p (err e, events) = (err e, events)
  after_compose p (ok (adapter_error code), events) = (
    fallback p [],
    events ++ llm_finishes p EventOutcome.failed (some (llm_error_value code)) ∷ [],
  )
  after_compose p (ok (composed c), events) =
      let done = check_text p (some c.provider_response_id) c.text in
      (done.0, events ++ llm_finishes p EventOutcome.succeeded none ∷ done.1)

  abbrev pub by_llm :
      ContextPacket → List ConversationTurn → Result ResponseOutcome × List LifecycleRecord
  by_llm p conversation =
      let done = after_compose p (compose p conversation) in
      (
        done.0,
        lifecycle_record t.llm_now llm_started p.trace_id "llm" EventOutcome.started none none none
              none
            ∷ done.1,
      )

  abbrev pub by_text : ContextPacket → Option String → Result ResponseOutcome × List LifecycleRecord
  by_text p none = (err (value_error "deterministic response mode requires text"), [])
  by_text p (some text) = check_text p none text

  abbrev pub by_mode :
      ResponseMode
      → ContextPacket
      → List ConversationTurn
      → Option String
      → Result ResponseOutcome × List LifecycleRecord
  by_mode jinja p conversation text = (fallback p [], [])
  by_mode deterministic p conversation text = by_text p text
  by_mode jinja_llm p conversation text = by_llm p conversation
  by_mode non_commercial_llm p conversation text = by_llm p conversation

  -- `respond(packet, conversation=…, deterministic_text=…)`
  unfoldable pub respond :
      ContextPacket
      → List ConversationTurn
      → Option String
      → Result ResponseOutcome × List LifecycleRecord
  unfolding compose check_text fallback
  respond p conversation text =
      let done = by_mode p.response_mode p conversation text in
      (
        done.0,
        lifecycle_record t.context_now context_built p.trace_id "context_packet"
              EventOutcome.succeeded none none (some (length p.confirmed_data))
              (some (length p.unavailable_data))
            ∷ done.1,
      )
