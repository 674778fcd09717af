-- ===== src/Tests/Composing.antt =====
-- Replies that src/piki/composition/engine.py and `_compose_reply` compose.
use Prim.Native.Char.{Char, code}
use buenpick_piki.Base.{
  ℕ, ◌≡◌, refl, String, Bool, true, ◌&&◌, ◌||◌, Option, none, some, List, [], fits, leb, ◌==◌, any,
}
use buenpick_piki.Base.Failure.{Failure, Result, ok, err}
use buenpick_piki.Sql.{select, one_or_none}
use buenpick_piki.Domain.Messages.{InboundMessage, MessageKind}
use buenpick_piki.Domain.Tools.{ContextPacket, deterministic, timeout}
use buenpick_piki.Observability.{LifecycleRecord}
use buenpick_piki.BuenPick.Models.{PickSearchResponse, ClientError}
use buenpick_piki.BuenPick.Client.{Fetched, timed_out}
use buenpick_piki.Composition.Patterns.{Unicode, evidence_free_availability, high_risk_patterns}
use buenpick_piki.Composition.Grounding.{factual_fallback, validate}
use buenpick_piki.Composition.Engine.{
  CompositionRequest, Composed, adapter_error, LlmErrorCode, EngineReadings, ResponseOutcome,
  respond, said, check_text,
}
use buenpick_piki.Composition.Grounded.{Answers, respond_grounded}
use buenpick_piki.Composition.Fallback.{fallback_text_is_bounded}
use buenpick_piki.Conversations.Store.{find_message}
use buenpick_piki.Conversation.Intents.{resolve, explain_buenpick}
use buenpick_piki.Conversation.Service.{reply_external_id, persisted_body}
use buenpick_piki.Conversation.Compose.{ComposeReadings, composer}
use buenpick_piki.Conversation.Stable.{KeepsMessages}
use buenpick_piki.Conversation.Composed.{composer-KeepsMessages, textless_unanswered}
use buenpick_piki.Tests.Samples.{inbound, one_message}
use buenpick_piki.Tests.Replies.{reads}

abbrev is_digit : Char → Bool
is_digit c = leb 48 (code c) && leb (code c) 57

-- ASCII without its letters' cases
abbrev ascii : Unicode
ascii = record {
  casefold = λ s. s;
  upper = λ s. s;
  is_word = λ c. is_digit c || (leb 65 (code c) && leb (code c) 122);
  is_decimal = is_digit;
  same_letter = λ c d. code c == code d;
}

abbrev packet : ContextPacket
packet = record {
  task = "Confirmar.";
  query = "persona";
  confirmed_data = [];
  unavailable_data = [];
  actions_performed = [];
  writing_rules = [];
  response_mode = deterministic;
  active_pick_id = none;
  trace_id = "trace";
}

abbrev render : ContextPacket → String
render p = "evidencia"

abbrev refuses : CompositionRequest → Result Composed
refuses r = ok (adapter_error LlmErrorCode.refused)

abbrev clocks : EngineReadings
clocks = record {
  context_now = 1;
  llm_started_at = 2;
  llm_now = 3;
  render_started_at = 4;
  render_now = 5;
  finished_now = 6;
  grounding_started_at = 7;
  grounding_now = 8;
}

abbrev outcome : ResponseOutcome
outcome = said ascii "Sos Piki." render refuses clocks packet none "Listo."

responds :
    (respond ascii "Sos Piki." render refuses clocks packet [] (some " Listo. ")).0 ≡ ok outcome
unfolding respond check_text validate any evidence_free_availability high_risk_patterns fits
responds = refl

respond_grounded_example : Answers ascii packet outcome
respond_grounded_example =
    respond_grounded ascii "Sos Piki." render refuses clocks packet [] (some " Listo. ") outcome
      responds

fallback_text_is_bounded_example : fits 1 4096 (factual_fallback ascii packet) ≡ true
fallback_text_is_bounded_example = fallback_text_is_bounded ascii packet

abbrev readings : ComposeReadings
readings = record {
  handoff = 5;
  now = 60;
  tool = record { started = 1; finished = 2; observed_at = 3; started_now = 4; finished_now = 5 };
  engine = clocks;
}

composer-KeepsMessages_example :
    KeepsMessages (composer ascii "Sos Piki." render refuses (λ s. s) none readings)
composer-KeepsMessages_example =
    composer-KeepsMessages ascii "Sos Piki." render refuses (λ s. s) none readings

abbrev photo : InboundMessage
photo = record inbound { kind = MessageKind.image; text = none }

explains : resolve (λ s. s) "" ≡ explain_buenpick
unfolding resolve any
explains = refl

no_reply : find_message (reply_external_id photo) one_message ≡ ok none
unfolding find_message select one_or_none
no_reply = refl

textless_unanswered_example :
    (x : Failure) × (ev : List LifecycleRecord) × (persisted_body
        (λ s. s)
        (composer ascii "Sos Piki." render refuses (λ s. s) none readings)
        reads
        1
        photo
        one_message
      ≡ (err x, one_message, ev))
textless_unanswered_example =
    textless_unanswered ascii "Sos Piki." render refuses (λ s. s) none readings (λ s. s) reads 1
      photo one_message refl explains no_reply

abbrev down : ℕ → Fetched
down n = timed_out

abbrev no_picks : String → Option PickSearchResponse
no_picks body = none

abbrev late : ClientError
late = record {
  code = timeout;
  user_safe_message = "No pude confirmar la informacion con BuenPick a tiempo.";
  status_code = none;
}
