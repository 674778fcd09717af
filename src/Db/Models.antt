-- ===== src/Db/Models.antt =====
-- The tables of src/piki/db/models.py. A primary key is a number; a timestamp is a number of
-- microseconds; a status column that the program reads back as an enum is that enum.
use buenpick_piki.Base.{ℕ, String, Bool, Option, List, any, ◌==◌, ◌≡◌, arith}
use buenpick_piki.Domain.Messages.{Channel, MessageKind}

pub data ConversationWorkflowStatus : Type 0 where
  new_conversation piki_active needs_human human_active resolved : ConversationWorkflowStatus

pub record ConversationRecord : Type 0 where
  pub id : ℕ
  pub channel : Channel
  pub channel_account_id : String
  pub external_conversation_id : String
  pub status : ConversationWorkflowStatus
  pub created_at : ℕ
  pub updated_at : ℕ

pub data Direction : Type 0 where
  inbound outbound : Direction

pub data ProcessingStatus : Type 0 where
  pending processing completed failed : ProcessingStatus

pub record MessageRecord : Type 0 where
  pub id : ℕ
  pub conversation_id : ℕ
  pub external_message_id : Option String
  pub direction : Direction
  pub kind : MessageKind
  pub content_text : Option String
  pub trace_id : String
  pub processing_status : Option ProcessingStatus
  pub processing_attempts : ℕ
  pub processing_available_at : Option ℕ
  pub processing_claimed_at : Option ℕ
  pub processing_error_code : Option String
  pub created_at : ℕ

pub data HandoffStatus : Type 0 where
  requested claimed resolved : HandoffStatus

pub record HandoffRecord : Type 0 where
  pub id : ℕ
  pub conversation_id : ℕ
  pub idempotency_key : String
  pub status : HandoffStatus
  pub reason : String
  pub trace_id : String
  pub created_at : ℕ
  pub resolved_at : Option ℕ

pub data DeliveryAttemptState : Type 0 where
  pending unknown accepted sent delivered read failed : DeliveryAttemptState

abbrev pub state_code : DeliveryAttemptState → ℕ
state_code pending = 0
state_code unknown = 1
state_code accepted = 2
state_code sent = 3
state_code delivered = 4
state_code read = 5
state_code failed = 6

-- equality of two values of the status column
abbrev pub same_state : DeliveryAttemptState → DeliveryAttemptState → Bool
same_state a b = state_code a == state_code b

pub state_code_inj : (a b : DeliveryAttemptState) → state_code a ≡ state_code b → a ≡ b
state_code_inj a b h = ground arith

pub record DeliveryAttemptRecord : Type 0 where
  pub id : ℕ
  pub conversation_id : ℕ
  pub idempotency_key : String
  pub provider_message_id : Option String
  pub status : DeliveryAttemptState
  pub error_code : Option String
  pub error_message : Option String
  pub trace_id : String
  pub created_at : ℕ
  pub updated_at : ℕ

pub record DeliveryStatusEventRecord : Type 0 where
  pub id : ℕ
  pub delivery_attempt_id : ℕ
  pub provider_message_id : Option String
  pub status : DeliveryAttemptState
  pub error_code : Option String
  pub error_message : Option String
  pub trace_id : String
  pub occurred_at : ℕ

pub record Db : Type 0 where
  pub conversations : List ConversationRecord
  pub messages : List MessageRecord
  pub handoffs : List HandoffRecord
  pub attempts : List DeliveryAttemptRecord
  pub status_events : List DeliveryStatusEventRecord

-- the foreign keys to `conversations.id`
unfoldable pub has_conversation : ℕ → Db → Bool
has_conversation i db = any (λ (c : ConversationRecord). c.id == i) db.conversations
