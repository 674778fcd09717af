-- ===== src/Composition/Policies.antt =====
-- src/piki/prompts/policies.py: the policies and the context packets that they permit.
use Prim.Native.String.{◌++◌ as append}
use buenpick_piki.Base.{
  ℕ, String, Bool, true, false, not, ◌&&◌, ◌||◌, Option, List, [], ◌∷◌, any, ◌==◌, if◌then◌else◌,
}
use buenpick_piki.Base.Failure.{Result, ok, err, value_error}
use buenpick_piki.Domain.Tools.{
  EvidenceItem, PerformedAction, ResponseMode, deterministic, jinja_llm, non_commercial_llm,
  ContextPacket, validate_packet,
}

pub data PolicyName : Type 0 where
  discover_picks pick_detail commerce_info order_status pick_image human_handoff : PolicyName
  explain_buenpick : PolicyName

abbrev policy_value : PolicyName → String
policy_value discover_picks = "discover_picks"
policy_value pick_detail = "pick_detail"
policy_value commerce_info = "commerce_info"
policy_value order_status = "order_status"
policy_value pick_image = "pick_image"
policy_value human_handoff = "human_handoff"
policy_value explain_buenpick = "explain_buenpick"

pub data ToolName : Type 0 where
  search_available_picks get_available_pick get_commerce get_customer_order : ToolName
  get_pick_image request_human_handoff : ToolName

abbrev tool_code : ToolName → ℕ
tool_code search_available_picks = 0
tool_code get_available_pick = 1
tool_code get_commerce = 2
tool_code get_customer_order = 3
tool_code get_pick_image = 4
tool_code request_human_handoff = 5

pub record PolicyDefinition : Type 0 where
  pub name : PolicyName
  pub task : String
  pub response_mode : ResponseMode
  pub allowed_tools : List ToolName
  pub writing_rules : List String
  pub commercial : Bool
  pub requires_confirmed_evidence : Bool

abbrev is_non_commercial : ResponseMode → Bool
is_non_commercial non_commercial_llm = true
is_non_commercial _ = false

-- `len(set(tools)) != len(tools)`
has_repeats : List ToolName → Bool
has_repeats [] = false
has_repeats (t ∷ ts) = any (λ u. tool_code u == tool_code t) ts || has_repeats ts

unfoldable pub validate_commercial_route : PolicyDefinition → Result PolicyDefinition
unfolding has_repeats
validate_commercial_route p =
    if p.commercial && is_non_commercial p.response_mode
    then err (value_error "commercial policy cannot use non-commercial LLM mode")
    else if p.commercial && not p.requires_confirmed_evidence
    then err (value_error "commercial policy must require confirmed evidence")
    else if has_repeats p.allowed_tools
    then err (value_error "policy tools must be unique")
    else ok p

abbrev pub is_empty : List EvidenceItem → Bool
is_empty [] = true
is_empty (_ ∷ _) = false

-- `context_packet(query=…, trace_id=…, …)`
unfoldable pub context_packet :
    PolicyDefinition
    → String
    → String
    → List EvidenceItem
    → List String
    → List PerformedAction
    → Option String
    → Result ContextPacket
unfolding validate_packet
context_packet p query trace_id confirmed unavailable actions active_pick_id =
    if p.requires_confirmed_evidence && is_empty confirmed
    then err (
        value_error
          (append "policy " (append (policy_value p.name) " requires confirmed evidence")))
    else validate_packet (record {
      task = p.task;
      query = query;
      confirmed_data = confirmed;
      unavailable_data = unavailable;
      actions_performed = actions;
      writing_rules = p.writing_rules;
      response_mode = p.response_mode;
      active_pick_id = active_pick_id;
      trace_id = trace_id;
    })

-- a commercial policy, with the evidence that it requires
abbrev commercial_policy :
    PolicyName → String → ResponseMode → List ToolName → List String → PolicyDefinition
commercial_policy name task mode tools rules = record {
  name = name;
  task = task;
  response_mode = mode;
  allowed_tools = tools;
  writing_rules = rules;
  commercial = true;
  requires_confirmed_evidence = true;
}

-- a policy with the defaults of the last two fields
abbrev plain_policy :
    PolicyName → String → ResponseMode → List ToolName → List String → PolicyDefinition
plain_policy name task mode tools rules = record {
  name = name;
  task = task;
  response_mode = mode;
  allowed_tools = tools;
  writing_rules = rules;
  commercial = false;
  requires_confirmed_evidence = false;
}

-- `get_policy(name)`, a look up in `_POLICIES`
unfoldable pub get_policy : PolicyName → PolicyDefinition
get_policy discover_picks =
    commercial_policy discover_picks
      "Ayudar a descubrir picks de alimentos disponibles en BuenPick." jinja_llm
      (search_available_picks ∷ [])
      ("Presentar únicamente picks devueltos como disponibles."
        ∷ "Distinguir una búsqueda sin resultados de un error de la fuente."
        ∷ "No prometer el contenido exacto de una bolsa sorpresa."
        ∷ "Cerrar con un único próximo paso útil." ∷ [])
get_policy pick_detail =
    commercial_policy pick_detail
      "Explicar un pick disponible y cómo continuar el rescate en BuenPick." jinja_llm
      (get_available_pick ∷ [])
      ("Usar precio, disponibilidad, retiro, imagen y enlace sólo si están confirmados."
        ∷ "Aclarar los datos no disponibles sin completarlos por contexto."
        ∷ "Dirigir a la URL pública confirmada; no crear checkout dentro de Piki." ∷ [])
get_policy commerce_info =
    commercial_policy commerce_info "Explicar datos operativos confirmados de un comercio BuenPick."
      jinja_llm (get_commerce ∷ [])
      ("No inferir horarios, cobertura o entrega desde la descripción del comercio."
        ∷ "Separar claramente retiro de entrega." ∷ [])
get_policy order_status =
    commercial_policy order_status
      "Informar el estado confirmado de una orden perteneciente a la persona." jinja_llm
      (get_customer_order ∷ [])
      ("No revelar una orden sin prueba de pertenencia validada por BuenPick."
        ∷ "No reinterpretar el estado ni inventar fechas o códigos de retiro."
        ∷ "No repetir datos de pertenencia en la respuesta." ∷ [])
get_policy pick_image =
    commercial_policy pick_image "Preparar la imagen confirmada del pick activo." deterministic
      (get_available_pick ∷ get_pick_image ∷ [])
      ("Usar sólo la imagen del pick reconfirmado."
        ∷ "Si no hay imagen, informar la limitación sin simular un envío." ∷ [])
get_policy human_handoff =
    plain_policy human_handoff "Confirmar de forma determinista la solicitud de atención humana."
      deterministic (request_human_handoff ∷ [])
      ("No afirmar que una persona respondió hasta que exista ese evento." ∷ [])
get_policy explain_buenpick =
    plain_policy explain_buenpick
      "Explicar de forma breve cómo BuenPick ayuda a rescatar alimentos." non_commercial_llm []
      ("Explicar el concepto sin afirmar que existe un pick concreto."
        ∷ "No afirmar presencia ni ausencia actual de picks sin consultar BuenPick."
        ∷ "No convertir la explicación en un catálogo estable." ∷ [])
