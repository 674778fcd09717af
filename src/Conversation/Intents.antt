-- ===== src/Conversation/Intents.antt =====
-- `ConversationIntentResolver` of src/piki/conversation/service.py. `_normalized`, which folds case and
-- removes accents by the tables of Unicode, is a parameter.
use buenpick_piki.Base.{String, List, [], ◌∷◌, any, str_eq, if◌then◌else◌}
use buenpick_piki.Base.Text.{contains}

pub data ConversationIntent : Type 0 where
  greeting discover_picks human_handoff explain_buenpick : ConversationIntent

abbrev handoff_terms : List String
handoff_terms = "humano" ∷ "persona" ∷ "operador" ∷ "asesor" ∷ "atencion" ∷ []

abbrev search_terms : List String
search_terms =
    "pick" ∷ "rescat" ∷ "busc" ∷ "disponible" ∷ "comida" ∷ "alimento" ∷ "hay" ∷ "quiero " ∷ []

abbrev greetings : List String
greetings = "hola" ∷ "buenas" ∷ "buen dia" ∷ "buenas tardes" ∷ "buenas noches" ∷ "hola piki" ∷ []

-- `resolve(text)`: whether or not a term that asks for an explanation occurs, that is the intent
-- that is left
unfoldable pub resolve : (String → String) → String → ConversationIntent
resolve normalize text =
    let normalized = normalize text in
    if any (contains normalized) handoff_terms
    then human_handoff
    else if any (str_eq normalized) greetings
    then greeting
    else if any (contains normalized) search_terms
    then discover_picks
    else explain_buenpick
