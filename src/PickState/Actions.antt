-- ===== src/PickState/Actions.antt =====
-- `PendingAction` and `RedisPendingActionStore` of src/piki/state/pending_actions.py.
use Prim.Native.String.{◌++◌ as append}
use buenpick_piki.Base.{
  ℕ, String, Bool, true, false, not, ◌&&◌, ◌||◌, Option, none, some, List, [], ◌∷◌, any, length,
  ltb, leb, str_eq, is_some, truthy, fits, fits?, if◌then◌else◌,
}
use buenpick_piki.Base.Failure.{Result, ok, err, value_error}
use buenpick_piki.Base.Text.{strip}
use buenpick_piki.Domain.Messages.{Datetime}
use buenpick_piki.Domain.Delivery.{nonempty}
use buenpick_piki.Coordination.Redis.{Link, Reply, answer, redis_error, call}
use buenpick_piki.Coordination.Keys.{ConversationScope, conversation_scope_digest}
use buenpick_piki.PickState.Values.{KeyValueStore, JsonModel}

pub data PendingActionKind : Type 0 where
  select_pick provide_order_ownership : PendingActionKind

pub record PendingAction : Type 0 where
  pub schema_version : String
  pub action_id : String
  pub kind : PendingActionKind
  pub created_at : Datetime
  pub subject_id : Option String
  pub candidate_pick_ids : List String

-- `len(set(xs)) != len(xs)`
unfoldable pub has_duplicates : List String → Bool
has_duplicates [] = false
has_duplicates (x ∷ xs) = any (λ y. str_eq x y) xs || has_duplicates xs

abbrev shape_of_kind : PendingActionKind → PendingAction → Result PendingAction
shape_of_kind select_pick a =
    if ltb (length a.candidate_pick_ids) 2 || is_some a.subject_id
    then err (value_error "pick selection requires at least two candidates and no subject")
    else ok a
shape_of_kind provide_order_ownership a =
    if not (is_some a.subject_id) || nonempty a.candidate_pick_ids
    then err (value_error "order ownership requires one subject and no candidates")
    else ok a

abbrev candidates : Result PendingAction → Result PendingAction
candidates (err e) = err e
candidates (ok a) =
    if any (λ i. not (truthy (strip i))) a.candidate_pick_ids
    then err (value_error "candidate pick IDs cannot be blank")
    else if has_duplicates a.candidate_pick_ids
    then err (value_error "candidate pick IDs must be unique")
    else ok a

-- the fields' bounds and `validate_shape`
unfoldable pub validate_pending_action : PendingAction → Result PendingAction
validate_pending_action a =
    if not
      (fits 36 36 a.action_id && fits? 1 255 a.subject_id && leb (length a.candidate_pick_ids) 20)
    then err (value_error "field bounds")
    else if not a.created_at.has_timezone
    then err (value_error "created_at must include a timezone")
    else candidates (shape_of_kind a.kind a)

pub data PendingActionStatus : Type 0 where
  found missing unavailable : PendingActionStatus

pub record PendingActionRead : Type 0 where
  pub status : PendingActionStatus
  pub action : Option PendingAction

pub record PendingActionWrite : Type 0 where
  pub success : Bool
  pub state_available : Bool

-- `RedisPendingActionStore(redis, ttl_seconds=…)`
unfoldable pub new_pending_actions : ℕ → Result ℕ
new_pending_actions ttl_seconds =
    if ltb ttl_seconds 1
    then err (value_error "pending-action TTL must be positive")
    else ok ttl_seconds

abbrev written : Reply Bool → PendingActionWrite
written redis_error = record { success = false; state_available = false }
written (answer stored) = record { success = stored; state_available = true }

abbrev cleared : {A : Type 0} → Reply A → PendingActionWrite
cleared redis_error = record { success = false; state_available = false }
cleared (answer _) = record { success = true; state_available = true }

abbrev pub unreadable : PendingActionRead
unreadable = record { status = unavailable; action = none }

abbrev pub absent : PendingActionRead
absent = record { status = missing; action = none }

abbrev pub present : PendingAction → PendingActionRead
present a = record { status = found; action = some a }

module _ (r : KeyValueStore) (json : JsonModel PendingAction) (sha256 : String → String) where
  unfoldable pub action_key : ConversationScope → String
  action_key scope =
      append "piki:v1:conversation"
        (append ":" (append (conversation_scope_digest sha256 scope) ":pending-action"))

  unfoldable pub set_action :
      ℕ → Link → ℕ → ConversationScope → PendingAction → r.State → PendingActionWrite × r.State
  set_action ttl_seconds link now scope action s =
      let done = call link (r.set s now (action_key scope) (json.dump action) ttl_seconds) s in
      (written done.0, done.1)

  unfoldable pub clear_action :
      Link → ℕ → ConversationScope → r.State → PendingActionWrite × r.State
  clear_action link now scope s =
      let done = call link (r.delete s now (action_key scope)) s in (cleared done.0, done.1)

  abbrev parsed :
      Link
      → ℕ
      → ConversationScope
      → Bool
      → Option PendingAction
      → r.State
      → PendingActionRead × r.State
  parsed link now scope consumed (some action) s = (present action, s)
  parsed link now scope consumed none s =
      if consumed then (unreadable, s) else (unreadable, (clear_action link now scope s).1)

  -- `_parse`: where the payload is not valid and was not consumed, the key is cleared
  unfoldable pub parse :
      Link → ℕ → ConversationScope → Bool → Option String → r.State → PendingActionRead × r.State
  parse link now scope consumed none s = (absent, s)
  parse link now scope consumed (some payload) s =
      parsed link now scope consumed (json.validate payload) s

  abbrev read :
      Link
      → ℕ
      → ConversationScope
      → Bool
      → Reply (Option String) × r.State
      → PendingActionRead × r.State
  read link now scope consumed (redis_error, s) = (unreadable, s)
  read link now scope consumed (answer payload, s) = parse link now scope consumed payload s

  -- `get`, with what the connection does to it and to a `clear` after it
  unfoldable pub get_action :
      Link → Link → ℕ → ConversationScope → r.State → PendingActionRead × r.State
  get_action link link' now scope s =
      read link' now scope false (call link (r.get s now (action_key scope), s) s)

  -- GETDEL
  abbrev pub getdel : r.State → ℕ → String → Option String × r.State
  getdel s now key = (r.get s now key, (r.delete s now key).1)

  unfoldable pub consume : Link → ℕ → ConversationScope → r.State → PendingActionRead × r.State
  consume link now scope s =
      read link now scope true (call link (getdel s now (action_key scope)) s)
