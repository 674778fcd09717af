-- ===== src/Conversation/Compose.antt =====
-- `_compose_reply` of src/piki/conversation/service.py: the composer of the orchestrator, over the
-- handoff repository, the tools, the policies and the response engine.
use Prim.Native.String.{◌++◌ as append}
use buenpick_piki.Base.{
  ℕ, String, Bool, true, Option, none, some, List, [], ◌∷◌, ◌++◌, truthy, fits, if◌then◌else◌,
}
use buenpick_piki.Base.Failure.{Result, ok, err, value_error}
use buenpick_piki.Sql.{◌>>=◌}
use buenpick_piki.Domain.Tools.{
  ToolResult, EvidenceItem, PerformedAction, ActionOutcome, ContextPacket,
}
use buenpick_piki.Observability.{LifecycleRecord}
use buenpick_piki.Db.Models.{Db, Direction}
use buenpick_piki.Db.Session.{Block, session}
use buenpick_piki.Handoffs.Store.{HandoffRequest, validate_handoff_request, request}
use buenpick_piki.Conversations.Store.{StoredMessage}
use buenpick_piki.BuenPick.Models.{PickSearchResponse, Answer}
use buenpick_piki.BuenPick.Tools.{ToolReadings, search_available_picks}
use buenpick_piki.BuenPick.Evidence.{ToolEvidenceBundle, search_result_evidence}
use buenpick_piki.Composition.Patterns.{Unicode}
use buenpick_piki.Composition.Policies.{
  human_handoff, discover_picks, explain_buenpick, get_policy, context_packet,
}
use buenpick_piki.Composition.Engine.{
  Role, user, assistant, ConversationTurn, CompositionRequest, Composed, EngineReadings,
  ResponseOutcome, respond,
}
use buenpick_piki.Conversation.Intents.{ConversationIntent}
use buenpick_piki.Conversation.Service.{Composer}

abbrev role_of : Direction → Role
role_of Direction.outbound = assistant
role_of Direction.inbound = user

validate_turn : ConversationTurn → Result ConversationTurn
validate_turn t = if fits 1 4096 t.text then ok t else err (value_error "field bounds")

abbrev add_turn :
    StoredMessage → Option String → Result (List ConversationTurn) → Result (List ConversationTurn)
add_turn m none rest = rest
add_turn m (some s) rest =
    if truthy s
    then validate_turn (record { role = role_of m.direction; text = s })
      >>= (λ t. rest >>= λ ts. ok (t ∷ ts))
    else rest

-- the turns of a history, without the messages that have no text
unfoldable pub turns_of : List StoredMessage → Result (List ConversationTurn)
unfolding validate_turn
turns_of [] = ok []
turns_of (m ∷ ms) = add_turn m m.content_text (turns_of ms)

abbrev answered :
    Result ResponseOutcome × List LifecycleRecord → Result (String × Bool) × List LifecycleRecord
answered (ok o, events) = (ok (o.text, o.used_fallback), events)
answered (err e, events) = (err e, events)

-- the fresh identifier and the readings of the clocks that one composition takes
pub record ComposeReadings : Type 0 where
  pub handoff : ℕ
  pub now : ℕ
  pub tool : ToolReadings
  pub engine : EngineReadings

abbrev pub handoff_text : String
handoff_text =
    "Listo, pedí atención humana. Tu conversación quedó en espera; todavía no significa que una persona haya respondido."

abbrev pub handoff_request : String → ℕ → String → HandoffRequest
handoff_request trace_id conversation message_id = record {
  conversation_id = conversation;
  idempotency_key = append "handoff:" message_id;
  reason = "La persona solicitó atención humana.";
  trace_id = trace_id;
}

-- the session of a request for a human
unfoldable pub handoff_block : ComposeReadings → HandoffRequest → Block (Unit {0})
handoff_block t r db =
    validate_handoff_request r >>= λ r'. request t.handoff t.now r' db >>= λ o. ok (tt, o.1)

module _ (u : Unicode) (system_prompt : String) (render : ContextPacket → String)
    (adapter : CompositionRequest → Result Composed) (casefold : String → String)
    (search : Option (String → Result (Answer PickSearchResponse))) (t : ComposeReadings) where
  abbrev pub engaged :
      List ConversationTurn
      → Option String
      → Result ContextPacket
      → Result (String × Bool) × List LifecycleRecord
  engaged turns text (err e) = (err e, [])
  engaged turns text (ok p) =
      answered (respond u system_prompt render adapter t.engine p turns text)

  abbrev requested_human : PerformedAction
  requested_human = record {
    name = "request_human_handoff";
    outcome = ActionOutcome.succeeded;
    reference = none;
  }

  -- the reply to a request for a human, once it is stored
  unfoldable pub confirm_handoff :
      String → String → List ConversationTurn → Result (String × Bool) × List LifecycleRecord
  unfolding respond context_packet get_policy
  confirm_handoff query trace_id turns =
      engaged turns (some handoff_text)
        (context_packet (get_policy human_handoff) query trace_id [] [] (requested_human ∷ []) none)

  abbrev pub after_handoff :
      String
      → String
      → List ConversationTurn
      → Result (Unit {0}) × Db
      → Result (String × Bool) × Db × List LifecycleRecord
  after_handoff query trace_id turns (err e, db) = (err e, db, [])
  after_handoff query trace_id turns (ok _, db) =
      let said = confirm_handoff query trace_id turns in (said.0, db, said.1)

  abbrev unavailable_text : List String → String
  unavailable_text [] = "No pude confirmar picks disponibles en este momento."
  unavailable_text (s ∷ _) = s

  abbrev discover_packet : String → String → ToolEvidenceBundle → Result ContextPacket
  discover_packet query trace_id b =
      context_packet (get_policy discover_picks) query trace_id b.confirmed_data b.unavailable_data
        b.actions_performed none

  abbrev pub on_evidence :
      String
      → String
      → List ConversationTurn
      → ToolEvidenceBundle
      → List EvidenceItem
      → Result (String × Bool) × List LifecycleRecord
  on_evidence query trace_id turns b [] = (ok (unavailable_text b.unavailable_data, true), [])
  on_evidence query trace_id turns b (_ ∷ _) = engaged turns none (discover_packet query trace_id b)

  abbrev pub with_evidence :
      String
      → String
      → List ConversationTurn
      → Result ToolEvidenceBundle
      → Result (String × Bool) × List LifecycleRecord
  with_evidence query trace_id turns (err e) = (err e, [])
  with_evidence query trace_id turns (ok b) = on_evidence query trace_id turns b b.confirmed_data

  abbrev pub after_search :
      String
      → String
      → List ConversationTurn
      → Result (ToolResult PickSearchResponse) × List LifecycleRecord
      → Result (String × Bool) × List LifecycleRecord
  after_search query trace_id turns (err e, events) = (err e, events)
  after_search query trace_id turns (ok r, events) =
      let said = with_evidence query trace_id turns (search_result_evidence casefold r) in
      (said.0, events ++ said.1)

  abbrev no_tools : String
  no_tools =
      "Todavía no está configurado el acceso local a la API de BuenPick. Puedo conversar, pero no voy a inventar picks, precios ni stock."

  abbrev pub discover_with :
      Option (String → Result (Answer PickSearchResponse))
      → String
      → String
      → List ConversationTurn
      → Result (String × Bool) × List LifecycleRecord
  discover_with none query trace_id turns = (ok (no_tools, true), [])
  discover_with (some ask) query trace_id turns =
      after_search query trace_id turns (search_available_picks t.tool trace_id (ask query))

  -- the reply to a search
  unfoldable pub discover :
      String → String → List ConversationTurn → Result (String × Bool) × List LifecycleRecord
  unfolding respond context_packet get_policy search_available_picks search_result_evidence
  discover query trace_id turns = discover_with search query trace_id turns

  -- the reply to any other message
  unfoldable pub explain :
      String → String → List ConversationTurn → Result (String × Bool) × List LifecycleRecord
  unfolding respond context_packet get_policy
  explain query trace_id turns =
      engaged turns none (context_packet (get_policy explain_buenpick) query trace_id [] [] [] none)

  abbrev pub keeping :
      Db
      → Result (String × Bool) × List LifecycleRecord
      → Result (String × Bool) × Db × List LifecycleRecord
  keeping db (said, events) = (said, db, events)

  abbrev pub by_intent :
      ConversationIntent
      → String
      → String
      → ℕ
      → List ConversationTurn
      → String
      → Db
      → Result (String × Bool) × Db × List LifecycleRecord
  by_intent ConversationIntent.human_handoff query trace_id conversation turns message_id db =
      after_handoff query trace_id turns
        (session (handoff_block t (handoff_request trace_id conversation message_id)) db)
  by_intent ConversationIntent.discover_picks query trace_id conversation turns message_id db =
      keeping db (discover query trace_id turns)
  by_intent ConversationIntent.greeting query trace_id conversation turns message_id db =
      keeping db (explain query trace_id turns)
  by_intent ConversationIntent.explain_buenpick query trace_id conversation turns message_id db =
      keeping db (explain query trace_id turns)

  abbrev pub with_turns :
      ConversationIntent
      → String
      → String
      → ℕ
      → String
      → Db
      → Result (List ConversationTurn)
      → Result (String × Bool) × Db × List LifecycleRecord
  with_turns intent query trace_id conversation message_id db (err e) = (err e, db, [])
  with_turns intent query trace_id conversation message_id db (ok turns) =
      by_intent intent query trace_id conversation turns message_id db

  -- `_compose_reply(intent=…, query=…, …)`
  unfoldable pub compose_reply :
      ConversationIntent
      → String
      → String
      → ℕ
      → List StoredMessage
      → String
      → Db
      → Result (String × Bool) × Db × List LifecycleRecord
  unfolding turns_of handoff_block session discover explain confirm_handoff
  compose_reply intent query trace_id conversation history message_id db =
      with_turns intent query trace_id conversation message_id db (turns_of history)

  -- the orchestrator's composer
  abbrev pub composer : Composer
  composer = record { compose = compose_reply }
