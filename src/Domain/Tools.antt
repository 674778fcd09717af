-- ===== src/Domain/Tools.antt =====
-- src/piki/domain/contracts.py: tool results, evidence and the context packet.
use buenpick_piki.Base.{
  ℕ, String, Bool, not, ◌&&◌, Option, List, truthy?, is_some, fits, fits?, if◌then◌else◌,
}
use buenpick_piki.Base.Failure.{Result, ok, err, value_error}

pub data ToolErrorCode : Type 0 where
  bad_request unauthorized not_found rate_limited timeout upstream_unavailable internal_error :
      ToolErrorCode

pub record ToolResult (A : Type 0) : Type 0 where
  pub success : Bool
  pub content : Option A
  pub error_code : Option ToolErrorCode
  pub user_safe_message : Option String
  pub latency_ms : ℕ
  pub trace_id : String

unfoldable pub validate_result_shape : {A : Type 0} → ToolResult A → Result (ToolResult A)
validate_result_shape r =
    if not (fits? 0 500 r.user_safe_message && fits 1 128 r.trace_id)
    then err (value_error "field bounds")
    else if r.success && is_some r.error_code
    then err (value_error "successful tool results cannot contain an error code")
    else if not r.success && not (is_some r.error_code)
    then err (value_error "failed tool results require an error code")
    else if not r.success && not (truthy? r.user_safe_message)
    then err (value_error "failed tool results require a user-safe message")
    else ok r

pub data EvidenceSource : Type 0 where
  buenpick_internal_api conversation policy : EvidenceSource

pub record EvidenceItem : Type 0 where
  pub label : String
  pub value : String
  pub source : EvidenceSource
  pub source_reference : Option String

-- the bounds of the fields
unfoldable pub validate_evidence : EvidenceItem → Result EvidenceItem
validate_evidence e =
    if fits 1 100 e.label && fits 1 2000 e.value && fits? 0 255 e.source_reference
    then ok e
    else err (value_error "field bounds")

pub data ActionOutcome : Type 0 where
  succeeded failed skipped : ActionOutcome

pub record PerformedAction : Type 0 where
  pub name : String
  pub outcome : ActionOutcome
  pub reference : Option String

pub data ResponseMode : Type 0 where
  deterministic jinja jinja_llm non_commercial_llm : ResponseMode

pub record ContextPacket : Type 0 where
  pub task : String
  pub query : String
  pub confirmed_data : List EvidenceItem
  pub unavailable_data : List String
  pub actions_performed : List PerformedAction
  pub writing_rules : List String
  pub response_mode : ResponseMode
  pub active_pick_id : Option String
  pub trace_id : String

unfoldable pub validate_packet : ContextPacket → Result ContextPacket
validate_packet p =
    if fits 1 500 p.task
      && fits 1 4096 p.query
      && fits? 0 255 p.active_pick_id
      && fits 1 128 p.trace_id
    then ok p
    else err (value_error "field bounds")

-- the values of an error code
abbrev pub tool_error_value : ToolErrorCode → String
tool_error_value bad_request = "bad_request"
tool_error_value unauthorized = "unauthorized"
tool_error_value not_found = "not_found"
tool_error_value rate_limited = "rate_limited"
tool_error_value timeout = "timeout"
tool_error_value upstream_unavailable = "upstream_unavailable"
tool_error_value internal_error = "internal_error"
