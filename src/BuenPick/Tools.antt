-- ===== src/BuenPick/Tools.antt =====
-- `BuenPickTools` of src/piki/tools/buenpick.py. A client's call is an argument: what it returns, or
-- the exception that it raises.
use buenpick_piki.Base.{ℕ, String, true, false, ◌-◌, ◌/◌, Option, none, some, List, [], ◌∷◌}
use buenpick_piki.Base.Failure.{Result, ok, err}
use buenpick_piki.Domain.Tools.{ToolResult, validate_result_shape, tool_error_value, not_found}
use buenpick_piki.Observability.{
  LifecycleRecord, EventOutcome, tool_started, tool_finished, lifecycle_record, emit,
}
use buenpick_piki.BuenPick.Models.{
  AvailablePick, Commerce, CustomerOrder, PickSearchResponse, ClientError, Answer, returns, raises,
}

-- the clocks' readings, in microseconds: the monotonic clock's before and after, and the observer's
pub record ToolReadings : Type 0 where
  pub started : ℕ
  pub finished : ℕ
  pub observed_at : ℕ
  pub started_now : ℕ
  pub finished_now : ℕ

-- `int((time.monotonic() - started) * 1000)`
abbrev pub latency : ToolReadings → ℕ
latency t = (t.finished - t.started) / 1000

abbrev pub succeeded_result : {A : Type 0} → ToolReadings → String → A → ToolResult A
succeeded_result t trace_id content = record {
  success = true;
  content = some content;
  error_code = none;
  user_safe_message = none;
  latency_ms = latency t;
  trace_id = trace_id;
}

abbrev pub failed_result : {A : Type 0} → ToolReadings → String → ClientError → ToolResult A
failed_result t trace_id error = record {
  success = false;
  content = none;
  error_code = some error.code;
  user_safe_message = some error.user_safe_message;
  latency_ms = latency t;
  trace_id = trace_id;
}

abbrev pub finished_event :
    ToolReadings → String → String → EventOutcome → Option String → LifecycleRecord
finished_event t trace_id name outcome code =
    lifecycle_record t.finished_now tool_finished trace_id name outcome (some t.observed_at) code
      none none

-- the records after the first one, which has tested the same fields, and the result
unfoldable pub after_operation :
    {A : Type 0}
    → ToolReadings
    → String
    → String
    → Result (Answer A)
    → Result (ToolResult A) × List LifecycleRecord
unfolding validate_result_shape
after_operation t trace_id name (ok (returns content)) = (
  validate_result_shape (succeeded_result t trace_id content),
  finished_event t trace_id name EventOutcome.succeeded none ∷ [],
)
after_operation t trace_id name (ok (raises error)) = (
  validate_result_shape (failed_result t trace_id error),
  finished_event t trace_id name EventOutcome.failed (some (tool_error_value error.code)) ∷ [],
)
after_operation t trace_id name (err e) = (err e, [])

abbrev pub announced :
    {A : Type 0}
    → ToolReadings
    → String
    → String
    → Result (Answer A)
    → Result LifecycleRecord
    → Result (ToolResult A) × List LifecycleRecord
announced t trace_id name operation (err e) = (err e, [])
announced t trace_id name operation (ok started) =
    let done = after_operation t trace_id name operation in (done.0, started ∷ done.1)

-- `_run(trace_id, tool_name, operation)`
unfoldable pub run :
    {A : Type 0}
    → ToolReadings
    → String
    → String
    → Result (Answer A)
    → Result (ToolResult A) × List LifecycleRecord
unfolding after_operation emit
run t trace_id name operation =
    announced t trace_id name operation
      (emit t.started_now tool_started trace_id name EventOutcome.started none none none none)

module _ (t : ToolReadings) (trace_id : String) where
  unfoldable pub search_available_picks :
      Result (Answer PickSearchResponse)
      → Result (ToolResult PickSearchResponse) × List LifecycleRecord
  unfolding run
  search_available_picks = run t trace_id "search_available_picks"

  unfoldable pub get_available_pick :
      Result (Answer AvailablePick) → Result (ToolResult AvailablePick) × List LifecycleRecord
  unfolding run
  get_available_pick = run t trace_id "get_available_pick"

  unfoldable pub get_commerce :
      Result (Answer Commerce) → Result (ToolResult Commerce) × List LifecycleRecord
  unfolding run
  get_commerce = run t trace_id "get_commerce"

  unfoldable pub get_customer_order :
      Result (Answer CustomerOrder) → Result (ToolResult CustomerOrder) × List LifecycleRecord
  unfolding run
  get_customer_order = run t trace_id "get_customer_order"

pub record PickImageEvidence : Type 0 where
  pub pick_id : String
  pub title : String
  pub image_url : String

-- `pick.images[0] if pick.images else pick.image_url`
abbrev pub image_of : AvailablePick → List String → Option String
image_of pick [] = pick.image_url
image_of pick (url ∷ _) = some url

abbrev pub no_image : ClientError
no_image = record {
  code = not_found;
  user_safe_message = "BuenPick no tiene una imagen disponible para este pick.";
  status_code = none;
}

abbrev pub with_image : AvailablePick → Option String → Answer PickImageEvidence
with_image pick none = raises no_image
with_image pick (some url) =
    returns (record { pick_id = pick.id; title = pick.title; image_url = url })

-- `collect()`
abbrev pub collect : Result (Answer AvailablePick) → Result (Answer PickImageEvidence)
collect (ok (returns pick)) = ok (with_image pick (image_of pick pick.images))
collect (ok (raises error)) = ok (raises error)
collect (err e) = err e

-- `get_pick_image(pick_id=…, trace_id=…)`, on what the client answers for the pick
unfoldable pub get_pick_image :
    ToolReadings
    → String
    → Result (Answer AvailablePick)
    → Result (ToolResult PickImageEvidence) × List LifecycleRecord
unfolding run
get_pick_image t trace_id pick = run t trace_id "get_pick_image" (collect pick)
