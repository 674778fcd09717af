-- ===== src/UseCases/PickImage.antt =====
-- `PickImagePreparer` of src/piki/use_cases/pick_image.py. The resolver of the active pick and the
-- tool are arguments, as the constructor takes them.
use buenpick_piki.Base.{
  String, Bool, true, false, not, ◌||◌, Option, none, some, List, [], ◌∷◌, is_some, truthy?,
  if◌then◌else◌,
}
use buenpick_piki.Base.Failure.{Result, ok, err, value_error, assertion_error, other}
use buenpick_piki.Sql.{◌>>=◌}
use buenpick_piki.Domain.Tools.{
  ToolErrorCode, bad_request, not_found, upstream_unavailable, internal_error, ToolResult,
  EvidenceItem, buenpick_internal_api, validate_evidence, PerformedAction, ActionOutcome,
}
use buenpick_piki.Observability.{LifecycleRecord}
use buenpick_piki.BuenPick.Models.{AvailablePick}
use buenpick_piki.BuenPick.Tools.{PickImageEvidence}
use buenpick_piki.BuenPick.Evidence.{message_or}
use buenpick_piki.PickState.Active.{
  ActivePickResolution, ActivePickResolutionStatus, confirmed, missing, stale, state_unavailable,
  upstream_unavailable as not_reached,
}

pub record PickImagePreparation : Type 0 where
  pub success : Bool
  pub active_pick_id : Option String
  pub media_url : Option String
  pub confirmed_data : List EvidenceItem
  pub actions_performed : List PerformedAction
  pub error_code : Option ToolErrorCode
  pub user_safe_message : Option String
  pub trace_id : String

abbrev has_items : List EvidenceItem → Bool
has_items [] = false
has_items (_ ∷ _) = true

-- `PickImagePreparation.validate_shape`
unfoldable pub validate_shape : PickImagePreparation → Result PickImagePreparation
validate_shape p =
    if p.success
    then if not (is_some p.active_pick_id)
        || not (is_some p.media_url)
        || not (has_items p.confirmed_data)
        || is_some p.error_code
        || is_some p.user_safe_message
      then err (value_error "successful image preparation requires confirmed media")
      else ok p
    else if not (is_some p.error_code) || not (truthy? p.user_safe_message)
    then err (value_error "failed image preparation requires a safe error")
    else ok p

abbrev action : String → ActionOutcome → PerformedAction
action name outcome = record { name = name; outcome = outcome; reference = none }

abbrev pub failure : String → ToolErrorCode → String → String → PickImagePreparation
failure name code message trace_id = record {
  success = false;
  active_pick_id = none;
  media_url = none;
  confirmed_data = [];
  actions_performed = action name ActionOutcome.failed ∷ [];
  error_code = some code;
  user_safe_message = some message;
  trace_id = trace_id;
}

abbrev pub code_or : Option ToolErrorCode → ToolErrorCode → ToolErrorCode
code_or none default = default
code_or (some code) _ = code

-- `failures[resolution.status]`
abbrev pub failure_of :
    ActivePickResolutionStatus → Option ToolErrorCode → Result (ToolErrorCode × String)
failure_of missing code = ok (bad_request, "Elegí un pick disponible antes de pedirme la foto.")
failure_of stale code =
    ok (not_found, "Ese pick ya no está disponible. Busquemos otra opción para rescatar.")
failure_of state_unavailable code = ok (
  upstream_unavailable, "No pude recuperar el pick de esta conversación. Decime cuál querías ver.",
)
failure_of not_reached code = ok (
  code_or code upstream_unavailable,
  "No pude confirmar la disponibilidad ni la imagen en este momento.",
)
failure_of confirmed code = err (other "KeyError")

abbrev pub told : String → Result (ToolErrorCode × String) → Result PickImagePreparation
told trace_id (err e) = err e
told trace_id (ok (code, message)) =
    validate_shape (failure "get_available_pick" code message trace_id)

-- `_resolution_failure(resolution, trace_id)`
unfoldable pub resolution_failure : ActivePickResolution → String → Result PickImagePreparation
unfolding validate_shape
resolution_failure a trace_id = told trace_id (failure_of a.status a.error_code)

abbrev image_item : PickImageEvidence → String → String → EvidenceItem
image_item image label value = record {
  label = label;
  value = value;
  source = buenpick_internal_api;
  source_reference = some image.pick_id;
}

abbrev pub prepared :
    PickImageEvidence → String → EvidenceItem → EvidenceItem → PickImagePreparation
prepared image trace_id title url = record {
  success = true;
  active_pick_id = some image.pick_id;
  media_url = some image.image_url;
  confirmed_data = title ∷ url ∷ [];
  actions_performed =
      action "get_available_pick" ActionOutcome.succeeded
      ∷ action "get_pick_image" ActionOutcome.succeeded
      ∷ [];
  error_code = none;
  user_safe_message = none;
  trace_id = trace_id;
}

-- the preparation of an image that the tool found
unfoldable pub with_image : PickImageEvidence → String → Result PickImagePreparation
unfolding validate_evidence validate_shape
with_image image trace_id =
    validate_evidence (image_item image "pick_title" image.title) >>= λ title.
    validate_evidence (image_item image "pick_image_url" image.image_url) >>= λ url.
    validate_shape (prepared image trace_id title url)

abbrev pub without_image : ToolResult PickImageEvidence → String → Result PickImagePreparation
without_image r trace_id = validate_shape (
    failure "get_pick_image" (code_or r.error_code internal_error)
      (message_or r.user_safe_message "No pude confirmar una imagen para ese pick.") trace_id)

abbrev pub from_content :
    ToolResult PickImageEvidence → Option PickImageEvidence → String → Result PickImagePreparation
from_content r none trace_id = without_image r trace_id
from_content r (some image) trace_id =
    if r.success then with_image image trace_id else without_image r trace_id

abbrev pub from_tool :
    String
    → Result (ToolResult PickImageEvidence) × List LifecycleRecord
    → Result PickImagePreparation × List LifecycleRecord
from_tool trace_id (err e, events) = (err e, events)
from_tool trace_id (ok r, events) = (from_content r r.content trace_id, events)

module _ (tool : String → Result (ToolResult PickImageEvidence) × List LifecycleRecord)
    (trace_id : String) where
  abbrev pub with_pick : Option AvailablePick → Result PickImagePreparation × List LifecycleRecord
  with_pick none = (err (assertion_error "confirmed active pick requires pick evidence"), [])
  with_pick (some pick) = from_tool trace_id (tool pick.id)

  abbrev pub by_status :
      ActivePickResolutionStatus
      → ActivePickResolution
      → Result PickImagePreparation × List LifecycleRecord
  by_status confirmed a = with_pick a.pick
  by_status missing a = (resolution_failure a trace_id, [])
  by_status stale a = (resolution_failure a trace_id, [])
  by_status state_unavailable a = (resolution_failure a trace_id, [])
  by_status not_reached a = (resolution_failure a trace_id, [])

  abbrev pub after_resolve :
      {S : Type 0}
      → Result ActivePickResolution × S
      → Result PickImagePreparation × S × List LifecycleRecord
  after_resolve (err e, s) = (err e, s, [])
  after_resolve (ok a, s) = let done = by_status a.status a in (done.0, s, done.1)

  -- `prepare(scope, trace_id=…)`, on a resolver of the scope
  unfoldable pub prepare :
      {S : Type 0}
      → (S → Result ActivePickResolution × S)
      → S
      → Result PickImagePreparation × S × List LifecycleRecord
  unfolding with_image resolution_failure validate_shape
  prepare resolve s = after_resolve (resolve s)
