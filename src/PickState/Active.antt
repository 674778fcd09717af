-- ===== src/PickState/Active.antt =====
-- `RedisActivePickStore` and `ActivePickService` of src/piki/state/active_pick.py. The client's answer
-- for a pick is an argument, and so is what the connection does to each call.
use Prim.Native.String.{◌++◌ as append}
use buenpick_piki.Base.{
  ℕ, String, Bool, true, false, not, ◌&&◌, Option, none, some, ltb, is_some, truthy, fits,
  if◌then◌else◌,
}
use buenpick_piki.Base.Failure.{Result, ok, err, value_error, assertion_error}
use buenpick_piki.Base.Text.{strip}
use buenpick_piki.Domain.Messages.{Datetime, utc}
use buenpick_piki.Domain.Tools.{ToolErrorCode, not_found}
use buenpick_piki.BuenPick.Models.{AvailablePick, Answer, returns, raises}
use buenpick_piki.Coordination.Redis.{Link, Reply, answer, redis_error, call}
use buenpick_piki.Coordination.Keys.{ConversationScope, conversation_scope_digest}
use buenpick_piki.PickState.Values.{KeyValueStore, JsonModel}

pub data ActivePickSource : Type 0 where
  explicit_reference unambiguous_result : ActivePickSource

pub record ActivePickReference : Type 0 where
  pub schema_version : String
  pub pick_id : String
  pub commerce_id : String
  pub selected_at : Datetime
  pub source : ActivePickSource

-- the fields' bounds and `validate_selected_at`
unfoldable pub validate_reference : ActivePickReference → Result ActivePickReference
validate_reference a =
    if not (fits 1 255 a.pick_id && fits 1 255 a.commerce_id)
    then err (value_error "field bounds")
    else if not a.selected_at.has_timezone
    then err (value_error "selected_at must include a timezone")
    else ok a

pub data StateReadStatus : Type 0 where
  found missing unavailable : StateReadStatus

pub record ActivePickRead : Type 0 where
  pub status : StateReadStatus
  pub reference : Option ActivePickReference

pub record StateWriteResult : Type 0 where
  pub success : Bool
  pub state_available : Bool

pub data ActivePickResolutionStatus : Type 0 where
  confirmed missing stale state_unavailable upstream_unavailable : ActivePickResolutionStatus

pub record ActivePickResolution : Type 0 where
  pub status : ActivePickResolutionStatus
  pub pick : Option AvailablePick
  pub source : Option ActivePickSource
  pub context_persisted : Bool
  pub error_code : Option ToolErrorCode

abbrev pub is_confirmed : ActivePickResolutionStatus → Bool
is_confirmed confirmed = true
is_confirmed _ = false

abbrev pub same : Bool → Bool → Bool
same true b = b
same false b = not b

-- `ActivePickResolution.validate_shape`
unfoldable pub validate_resolution : ActivePickResolution → Result ActivePickResolution
validate_resolution a =
    if not (same (is_confirmed a.status) (is_some a.pick && is_some a.source))
    then err (value_error "only confirmed resolutions contain pick evidence and source")
    else if is_confirmed a.status && is_some a.error_code
    then err (value_error "confirmed resolutions cannot contain an error")
    else ok a

-- `RedisActivePickStore(redis, ttl_seconds=…)`
unfoldable pub new_active_picks : ℕ → Result ℕ
new_active_picks ttl_seconds =
    if ltb ttl_seconds 1
    then err (value_error "active-pick TTL must be positive")
    else ok ttl_seconds

abbrev pub written : Reply Bool → StateWriteResult
written redis_error = record { success = false; state_available = false }
written (answer stored) = record { success = stored; state_available = true }

abbrev pub cleared : Reply ℕ → StateWriteResult
cleared redis_error = record { success = false; state_available = false }
cleared (answer _) = record { success = true; state_available = true }

abbrev pub unreadable : ActivePickRead
unreadable = record { status = unavailable; reference = none }

abbrev pub resolution : ActivePickResolutionStatus → Option ToolErrorCode → ActivePickResolution
resolution status code = record {
  status = status;
  pick = none;
  source = none;
  context_persisted = false;
  error_code = code;
}

abbrev pub confirms : AvailablePick → ActivePickSource → Bool → ActivePickResolution
confirms pick source persisted = record {
  status = confirmed;
  pick = some pick;
  source = some source;
  context_persisted = persisted;
  error_code = none;
}

abbrev pub is_not_found : ToolErrorCode → Bool
is_not_found not_found = true
is_not_found _ = false

-- what one call of `resolve` takes: the connection for each of its calls, and the time
pub record Readings : Type 0 where
  pub get_link : Link
  pub clear_link : Link
  pub set_link : Link
  pub now : ℕ
  pub selected_at : ℕ

module _ (r : KeyValueStore) (json : JsonModel ActivePickReference) (sha256 : String → String)
    (ttl_seconds : ℕ) where
  unfoldable pub pick_key : ConversationScope → String
  pick_key scope =
      append "piki:v1:conversation"
        (append ":" (append (conversation_scope_digest sha256 scope) ":active-pick"))

  unfoldable pub set_pick :
      Link → ℕ → ConversationScope → ActivePickReference → r.State → StateWriteResult × r.State
  set_pick link now scope reference s =
      let done = call link (r.set s now (pick_key scope) (json.dump reference) ttl_seconds) s in
      (written done.0, done.1)

  unfoldable pub clear_pick : Link → ℕ → ConversationScope → r.State → StateWriteResult × r.State
  clear_pick link now scope s =
      let done = call link (r.delete s now (pick_key scope)) s in (cleared done.0, done.1)

  abbrev pub validated :
      Link → ℕ → ConversationScope → Option ActivePickReference → r.State → ActivePickRead × r.State
  validated link now scope none s = (unreadable, (clear_pick link now scope s).1)
  validated link now scope (some reference) s =
      (record { status = found; reference = some reference }, s)

  abbrev pub read :
      Link → ℕ → ConversationScope → Reply (Option String) × r.State → ActivePickRead × r.State
  read link now scope (redis_error, s) = (unreadable, s)
  read link now scope (answer none, s) =
      (record { status = StateReadStatus.missing; reference = none }, s)
  read link now scope (answer (some payload), s) =
      validated link now scope (json.validate payload) s

  -- `get`, with the connection of a `clear` after it
  unfoldable pub get_pick : Link → Link → ℕ → ConversationScope → r.State → ActivePickRead × r.State
  get_pick link link' now scope s =
      read link' now scope (call link (r.get s now (pick_key scope), s) s)

  abbrev pub new_reference : ℕ → AvailablePick → ActivePickSource → ActivePickReference
  new_reference selected_at pick source = record {
    schema_version = "1.0";
    pick_id = pick.id;
    commerce_id = pick.commerce.id;
    selected_at = utc selected_at;
    source = source;
  }

  abbrev pub stored :
      Readings
      → ConversationScope
      → Result ActivePickReference
      → r.State
      → Result StateWriteResult × r.State
  stored t scope (err e) s = (err e, s)
  stored t scope (ok reference) s =
      let done = set_pick t.set_link t.now scope reference s in (ok done.0, done.1)

  -- `remember(scope, pick, source)`
  unfoldable pub remember :
      Readings
      → ConversationScope
      → AvailablePick
      → ActivePickSource
      → r.State
      → Result StateWriteResult × r.State
  unfolding validate_reference set_pick
  remember t scope pick source s =
      stored t scope (validate_reference (new_reference t.selected_at pick source)) s

  abbrev pub persisted :
      AvailablePick
      → ActivePickSource
      → Result StateWriteResult × r.State
      → Result ActivePickResolution × r.State
  persisted pick source (err e, s) = (err e, s)
  persisted pick source (ok write, s) = (ok (confirms pick source write.success), s)

  -- what follows the client's answer; `remembered` says that the reference was read from the store
  abbrev pub answered :
      Readings
      → ConversationScope
      → Bool
      → ActivePickSource
      → Answer AvailablePick
      → r.State
      → Result ActivePickResolution × r.State
  answered t scope remembered source (raises e) s =
      if is_not_found e.code
      then (
        ok (resolution stale (some e.code)),
        if remembered then (clear_pick t.clear_link t.now scope s).1 else s,
      )
      else (ok (resolution upstream_unavailable (some e.code)), s)
  answered t scope true source (returns pick) s = (ok (confirms pick source true), s)
  answered t scope false source (returns pick) s =
      persisted pick source (remember t scope pick source s)

  abbrev pub from_store :
      (String → Answer AvailablePick)
      → Readings
      → ConversationScope
      → ActivePickRead × r.State
      → Result ActivePickResolution × r.State
  from_store client t scope (a, s) = elim a.status [
    | StateReadStatus.unavailable ↦ (ok (resolution state_unavailable none), s)
    | StateReadStatus.missing ↦ (ok (resolution ActivePickResolutionStatus.missing none), s)
    | StateReadStatus.found ↦ elim a.reference [
      | none ↦ (err (assertion_error "found active pick must contain a reference"), s)
      | some reference ↦ answered t scope true reference.source (client reference.pick_id) s
    ]
  ]

  -- `resolve(scope, explicit_pick_id=…)`
  unfoldable pub resolve :
      (String → Answer AvailablePick)
      → Readings
      → ConversationScope
      → Option String
      → r.State
      → Result ActivePickResolution × r.State
  unfolding get_pick
  resolve client t scope none s =
      from_store client t scope (get_pick t.get_link t.clear_link t.now scope s)
  resolve client t scope (some explicit) s =
      if truthy (strip explicit)
      then answered t scope false explicit_reference (client (strip explicit)) s
      else (ok (resolution ActivePickResolutionStatus.missing none), s)
