-- ===== src/Handoffs/Store.antt =====
-- `HandoffRepository` of src/piki/db/handoffs.py. The fresh identifier and the clock of the
-- database are arguments.
use buenpick_piki.Base.{
  ℕ, String, Bool, true, false, not, ◌&&◌, ◌||◌, Option, none, some, List, [], ◌∷◌, ◌==◌, ltb, any,
  str_eq, is_some, fits, if◌then◌else◌,
}
use buenpick_piki.Base.Failure.{Result, ok, err, value_error, no_result_found}
use buenpick_piki.Sql.{◌>>=◌, select, update, insert_or_nothing}
use buenpick_piki.Db.Models.{
  ConversationRecord, HandoffRecord, HandoffStatus, requested, claimed, needs_human,
  has_conversation,
}
use buenpick_piki.Db.Session.{Block}

pub record HandoffRequest : Type 0 where
  pub conversation_id : ℕ
  pub idempotency_key : String
  pub reason : String
  pub trace_id : String

-- the checks of the contract
unfoldable pub validate_handoff_request : HandoffRequest → Result HandoffRequest
validate_handoff_request r =
    if fits 1 255 r.idempotency_key && fits 1 500 r.reason && fits 1 128 r.trace_id
    then ok r
    else err (value_error "field bounds")

pub record PersistedHandoff : Type 0 where
  pub id : ℕ
  pub conversation_id : ℕ
  pub status : HandoffStatus
  pub reason : String
  pub trace_id : String
  pub created_at : ℕ
  pub created : Bool

abbrev pub is_open : HandoffStatus → Bool
is_open requested = true
is_open claimed = true
is_open HandoffStatus.resolved = false

-- uq_handoffs_one_open_per_conversation
abbrev pub open_in : ℕ → HandoffRecord → Bool
open_in conversation h = h.conversation_id == conversation && is_open h.status

-- uq_handoffs_conversation_idempotency
abbrev pub key_in : ℕ → String → HandoffRecord → Bool
key_in conversation key h = h.conversation_id == conversation && str_eq h.idempotency_key key

-- the WHERE clause of the query for the earlier request
abbrev pub answers : HandoffRequest → HandoffRecord → Bool
answers r h =
    h.conversation_id == r.conversation_id
    && (str_eq h.idempotency_key r.idempotency_key || is_open h.status)

abbrev pub requested_row : ℕ → ℕ → HandoffRequest → HandoffRecord
requested_row handoff now r = record {
  id = handoff;
  conversation_id = r.conversation_id;
  idempotency_key = r.idempotency_key;
  status = requested;
  reason = r.reason;
  trace_id = r.trace_id;
  created_at = now;
  resolved_at = none;
}

-- ON CONFLICT DO NOTHING, whatever the constraint: the primary key is one
abbrev pub conflicts : HandoffRecord → List HandoffRecord → Bool
conflicts row rows =
    any (λ h. h.id == row.id) rows
    || any (key_in row.conversation_id row.idempotency_key) rows
    || any (open_in row.conversation_id) rows

-- ORDER BY created_at, id LIMIT 1
abbrev pub is_older : HandoffRecord → HandoffRecord → Bool
is_older a b = if a.created_at == b.created_at then ltb a.id b.id else ltb a.created_at b.created_at

abbrev older_of : HandoffRecord → Option HandoffRecord → HandoffRecord
older_of h none = h
older_of h (some g) = if is_older g h then g else h

unfoldable pub oldest : List HandoffRecord → Option HandoffRecord
oldest [] = none
oldest (h ∷ rest) = some (older_of h (oldest rest))

-- `.one()` on at most one row
abbrev only : Option HandoffRecord → Result HandoffRecord
only none = err no_result_found
only (some h) = ok h

-- the row that is returned
unfoldable pub earlier :
    HandoffRequest → Option HandoffRecord → List HandoffRecord → Result HandoffRecord
unfolding oldest
earlier r (some row) rows = ok row
earlier r none rows = only (oldest (select (answers r) rows))

abbrev pub conversation_is : ℕ → ConversationRecord → Bool
conversation_is i c = c.id == i

abbrev pub wants_human : ℕ → ConversationRecord → ConversationRecord
wants_human now c = record c { status = needs_human; updated_at = now }

abbrev pub persisted : HandoffRecord → Bool → PersistedHandoff
persisted h created = record {
  id = h.id;
  conversation_id = h.conversation_id;
  status = h.status;
  reason = h.reason;
  trace_id = h.trace_id;
  created_at = h.created_at;
  created = created;
}

-- `request`
unfoldable pub request : ℕ → ℕ → HandoffRequest → Block PersistedHandoff
unfolding earlier insert_or_nothing
request handoff now r db =
    insert_or_nothing (conflicts (requested_row handoff now r) db.handoffs)
      (not (has_conversation r.conversation_id db)) (requested_row handoff now r) db.handoffs
    >>= λ s. earlier r s.0 s.1 >>= λ row. ok (
      persisted row (is_some s.0),
      record db {
        handoffs = s.1;
        conversations =
            update (conversation_is r.conversation_id) (wants_human now) db.conversations;
      },
    )
