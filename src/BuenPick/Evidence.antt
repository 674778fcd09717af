-- ===== src/BuenPick/Evidence.antt =====
-- src/piki/evidence/buenpick.py: what a tool's result confirms. `str.casefold` is an argument.
use Prim.Native.String.{◌++◌ as append}
use text.Mathlib.Text.{find?}
use buenpick_piki.Base.{
  ℕ, suc, String, Bool, Option, none, some, List, [], ◌∷◌, ◌++◌, any, is_some, truthy,
  if◌then◌else◌,
}
use buenpick_piki.Base.Failure.{Result, ok}
use buenpick_piki.Base.Decimal.{str}
use buenpick_piki.Sql.{◌>>=◌}
use buenpick_piki.Domain.Tools.{
  ToolResult, EvidenceItem, buenpick_internal_api, validate_evidence, PerformedAction,
  ActionOutcome,
}
use buenpick_piki.BuenPick.Models.{
  PickSummary, PickSearchResponse, CustomerOrder, OrderPick, FulfillmentType,
}
use buenpick_piki.BuenPick.Money.{format_ars_cents}

pub record ToolEvidenceBundle : Type 0 where
  pub confirmed_data : List EvidenceItem
  pub unavailable_data : List String
  pub actions_performed : List PerformedAction

-- texts joined
abbrev pub concat : List String → String
concat [] = String.[]
concat (s ∷ ss) = append s (concat ss)

abbrev pub action : String → ActionOutcome → PerformedAction
action name outcome = record { name = name; outcome = outcome; reference = none }

abbrev pub confirmed : String → String → Option String → EvidenceItem
confirmed label value reference = record {
  label = label;
  value = value;
  source = buenpick_internal_api;
  source_reference = reference;
}

-- items built one after another: the first that is out of bounds raises
unfoldable pub build : List EvidenceItem → Result (List EvidenceItem)
unfolding validate_evidence
build [] = ok []
build (e ∷ es) = validate_evidence e >>= λ e'. build es >>= λ es'. ok (e' ∷ es')

-- `message or default`
abbrev pub message_or : Option String → String → String
message_or none default = default
message_or (some s) default = if truthy s then s else default

abbrev failed_bundle : String → Option String → String → ToolEvidenceBundle
failed_bundle name message default = record {
  confirmed_data = [];
  unavailable_data = message_or message default ∷ [];
  actions_performed = action name ActionOutcome.failed ∷ [];
}

unfoldable pub pick_value : PickSummary → String
unfolding format_ars_cents str
pick_value pick = concat (
    "Title: "
    ∷ pick.title
    ∷ "; Commerce: "
    ∷ pick.commerce.name
    ∷ "; Price ARS: "
    ∷ format_ars_cents pick.price
    ∷ "; Available quantity: "
    ∷ str pick.available_quantity
    ∷ "; Status: available"
    ∷ [])

-- one item for each pick, numbered
unfoldable pub pick_items : ℕ → List PickSummary → List EvidenceItem
unfolding pick_value str
pick_items n [] = []
pick_items n (pick ∷ picks) =
    confirmed (append "available_pick_" (str n)) (pick_value pick) (some pick.id)
    ∷ pick_items (suc n) picks

no_picks : EvidenceItem
no_picks =
    confirmed "search_availability" "BuenPick returned no available picks for this search." none

surprise : String
surprise = "El contenido exacto de una bolsa sorpresa no está confirmado por BuenPick."

module _ (casefold : String → String) where
  abbrev pub is_surprise : PickSummary → Bool
  is_surprise pick = is_some (find? (casefold pick.title) "sorpresa")

  abbrev found_bundle : List PickSummary → List EvidenceItem → ToolEvidenceBundle
  found_bundle picks items = record {
    confirmed_data = items;
    unavailable_data = if any is_surprise picks then surprise ∷ [] else [];
    actions_performed = action "search_available_picks" ActionOutcome.succeeded ∷ [];
  }

  abbrev found : List PickSummary → Result ToolEvidenceBundle
  found [] = build (no_picks ∷ []) >>= λ items. ok (found_bundle [] items)
  found (pick ∷ picks) =
      build (pick_items 1 (pick ∷ picks)) >>= λ items. ok (found_bundle (pick ∷ picks) items)

  abbrev not_searched : ToolResult PickSearchResponse → ToolEvidenceBundle
  not_searched r =
      failed_bundle "search_available_picks" r.user_safe_message
        "No se pudo confirmar la búsqueda en BuenPick."

  abbrev searched :
      ToolResult PickSearchResponse → Option PickSearchResponse → Result ToolEvidenceBundle
  searched r none = ok (not_searched r)
  searched r (some answer) = if r.success then found answer.items else ok (not_searched r)

  -- `search_result_evidence(result)`
  unfoldable pub search_result_evidence : ToolResult PickSearchResponse → Result ToolEvidenceBundle
  unfolding build pick_items no_picks surprise
  search_result_evidence r = searched r r.content

abbrev fulfillment_value : FulfillmentType → String
fulfillment_value FulfillmentType.pickup = "pickup"
fulfillment_value FulfillmentType.delivery = "delivery"

unfoldable pub order_pick_value : OrderPick → String
unfolding format_ars_cents str
order_pick_value pick = concat (
    "Title: "
    ∷ pick.title
    ∷ "; Quantity: "
    ∷ str pick.quantity
    ∷ "; Line total ARS: "
    ∷ format_ars_cents pick.line_total
    ∷ [])

unfoldable pub order_pick_items : String → ℕ → List OrderPick → List EvidenceItem
unfolding order_pick_value str
order_pick_items id n [] = []
order_pick_items id n (pick ∷ picks) =
    confirmed (append "order_pick_" (str n)) (order_pick_value pick) (some id)
    ∷ order_pick_items id (suc n) picks

-- an item for a text that is not empty
abbrev optional_item : String → String → Option String → List EvidenceItem
optional_item id label none = []
optional_item id label (some s) = if truthy s then confirmed label s (some id) ∷ [] else []

-- the items of an order, in the order in which they are built
unfoldable pub order_items : CustomerOrder → List EvidenceItem
unfolding order_pick_items format_ars_cents
order_items order =
    (confirmed "order_status" order.status (some order.id)
      ∷ confirmed "order_commerce" order.commerce.name (some order.id)
      ∷ confirmed "order_total_ars" (format_ars_cents order.total) (some order.id)
      ∷ confirmed "fulfillment_type" (fulfillment_value order.fulfillment.kind) (some order.id)
      ∷ [])
    ++ order_pick_items order.id 1 order.picks
    ++ optional_item order.id "pickup_code" order.fulfillment.pickup_code
    ++ optional_item order.id "pickup_instructions" order.pickup.instructions
    ++ confirmed "pickup_store_address" order.pickup.store_address (some order.id) ∷ []

abbrev not_ordered : ToolResult CustomerOrder → ToolEvidenceBundle
not_ordered r =
    failed_bundle "get_customer_order" r.user_safe_message
      "No se pudo confirmar una orden perteneciente a esta persona."

abbrev ordered : ToolResult CustomerOrder → Option CustomerOrder → Result ToolEvidenceBundle
ordered r none = ok (not_ordered r)
ordered r (some order) =
    if r.success
    then build (order_items order) >>= (λ items. ok (record {
      confirmed_data = items;
      unavailable_data = [];
      actions_performed = action "get_customer_order" ActionOutcome.succeeded ∷ [];
    }))
    else ok (not_ordered r)

-- `order_result_evidence(result)`
unfoldable pub order_result_evidence : ToolResult CustomerOrder → Result ToolEvidenceBundle
unfolding build order_items
order_result_evidence r = ordered r r.content
