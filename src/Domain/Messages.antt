-- ===== src/Domain/Messages.antt =====
-- src/piki/domain/contracts.py: channels and inbound messages.
use buenpick_piki.Base.{
  ℕ, String, Bool, not, ◌&&◌, Option, List, ◌==◌, truthy, fits, fits?, if◌then◌else◌, none, some,
}
use buenpick_piki.Base.Failure.{Result, ok, err, value_error}
use buenpick_piki.Base.Text.{strip}

pub data Channel : Type 0 where
  whatsapp web : Channel

abbrev pub channel_code : Channel → ℕ
channel_code whatsapp = 0
channel_code web = 1

-- `channel.value == other.value`
abbrev pub same_channel : Channel → Channel → Bool
same_channel a b = channel_code a == channel_code b

pub data MessageKind : Type 0 where
  text image interactive unsupported : MessageKind

abbrev pub is_text : MessageKind → Bool
is_text text = Bool.true
is_text _ = Bool.false

-- A `datetime`: microseconds since the epoch, and whether it carries a time zone.
pub record Datetime : Type 0 where
  pub micros : ℕ
  pub has_timezone : Bool

abbrev pub utc : ℕ → Datetime
utc t = record { micros = t; has_timezone = Bool.true }

pub record InboundMessage : Type 0 where
  pub message_id : String
  pub channel : Channel
  pub conversation_id : String
  pub sender_id : String
  pub kind : MessageKind
  pub text : Option String
  pub received_at : Datetime
  pub metadata : List (String × String)

-- `text.strip()` is truthy
abbrev pub has_words : Option String → Bool
has_words none = Bool.false
has_words (some s) = truthy s && truthy (strip s)

inbound_fields : InboundMessage → Bool
inbound_fields m =
    fits 1 255 m.message_id
    && fits 1 255 m.conversation_id
    && fits 1 255 m.sender_id
    && fits? 0 4096 m.text

unfoldable pub validate_text_message : InboundMessage → Result InboundMessage
unfolding inbound_fields
validate_text_message m =
    if not (inbound_fields m)
    then err (value_error "field bounds")
    else if not m.received_at.has_timezone
    then err (value_error "received_at must include a timezone")
    else if is_text m.kind && not (has_words m.text)
    then err (value_error "text messages require non-empty text")
    else ok m
