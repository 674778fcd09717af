-- ===== src/Conversation/Outage.antt =====
-- A search of src/piki/conversation/service.py while src/piki/integrations/buenpick/client.py cannot get
-- an answer: what the person is told.
use buenpick_piki.Base.{◌≡◌, String, Bool, true, some, List, truthy, fits, if◌then◌else◌}
use buenpick_piki.Base.Failure.{Result}
use buenpick_piki.Domain.Tools.{ContextPacket}
use buenpick_piki.Observability.{LifecycleRecord}
use buenpick_piki.BuenPick.Models.{PickSearchResponse, Answer, ClientError, returns, raises}
use buenpick_piki.BuenPick.Client.{search_available_picks as client_search}
use buenpick_piki.BuenPick.Tools.{search_available_picks}
use buenpick_piki.Composition.Patterns.{Unicode}
use buenpick_piki.Composition.Engine.{CompositionRequest, Composed, ConversationTurn}
use buenpick_piki.Conversation.Compose.{ComposeReadings, discover}

-- what an error says can be told
abbrev Tellable : ClientError → Type 0
Tellable e = (truthy e.user_safe_message ≡ true) × (fits 0 500 e.user_safe_message ≡ true)

abbrev error_in : {A : Type 0} → ClientError → Answer A → ClientError
error_in d (returns _) = d
error_in d (raises e) = e

module _ (u : Unicode) (system_prompt : String) (render : ContextPacket → String)
    (adapter : CompositionRequest → Result Composed) (casefold : String → String)
    (t : ComposeReadings) (query trace_id : String) (turns : List ConversationTurn) where
  abbrev pub told :
      (String → Result (Answer PickSearchResponse)) → Result (String × Bool) × List LifecycleRecord
  told ask = discover u system_prompt render adapter casefold (some ask) t query trace_id turns

  abbrev message_if : ClientError → Bool → String
  message_if e b =
      if b then e.user_safe_message else "No se pudo confirmar la búsqueda en BuenPick."
