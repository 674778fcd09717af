-- ===== src/Ingress/Normalized.antt =====
-- What `normalize_webhook` of src/piki/integrations/meta/webhook.py lets through.
use buenpick_piki.Base.{
  ◌≡◌, refl, String, Bool, true, false, not, Option, some, none, List, [], ◌∷◌, ap, sym, ◌∙◌, arith,
  eq_iff, str_eq, All, All-append,
}
use mathlib.Core.Path.{subst}
use buenpick_piki.Base.Failure.{Result, ok, err}
use buenpick_piki.Sql.Bind.{bind_ok, ok_inj, unless_ok}
use buenpick_piki.Domain.Messages.{InboundMessage, Channel, validate_text_message}
use buenpick_piki.Meta.Status.{MetaStatusUpdate, validate_error_shape}
use buenpick_piki.Meta.Payload.{MetaMessage, MetaStatus, MetaValue, MetaEntry, MetaWebhookEvents}
use buenpick_piki.Meta.Webhook.{
  TimeRead, timestamp_of, or_invalid, inbound_of, update_of, message_metadata, normalize_message,
  normalize_status, normalize_messages, normalize_statuses, normalize_changes, normalize_entries,
  normalize_webhook,
}
use buenpick_piki.Ingress.Service.{phone_number, get_item}

valid_of : {A : Type 0} (what : String) (r : Result A) (a : A) → or_invalid what r ≡ ok a → r ≡ ok a
valid_of what (ok b) a h = h
valid_of what (err e) a h = absurd (cc)

abbrev pub SoundMessage : String → InboundMessage → Type 0
SoundMessage phone m =
    (phone_number m ≡ some phone)
    × (m.channel ≡ Channel.whatsapp)
    × (m.sender_id ≡ m.conversation_id)
    × (validate_text_message m ≡ ok m)

abbrev pub SoundStatus : String → MetaStatusUpdate → Type 0
SoundStatus phone s = (s.phone_number_id ≡ phone) × (validate_error_shape s ≡ ok s)

message_same : (m m' : InboundMessage) → validate_text_message m ≡ ok m' → m ≡ m'
unfolding validate_text_message
message_same m m' h = ground arith

status_same : (s s' : MetaStatusUpdate) → validate_error_shape s ≡ ok s' → s ≡ s'
unfolding validate_error_shape
status_same s s' h = ground arith

has_phone :
    (m : MetaMessage) (phone : String)
    → get_item "phone_number_id" (message_metadata m phone).2 ≡ some phone
unfolding message_metadata get_item
has_phone m phone = ground arith

module _ (read_time : String → TimeRead) (phone : String) where
  message-Sound :
      (m : MetaMessage) (m' : InboundMessage)
      → normalize_message read_time phone m ≡ ok m'
      → SoundMessage phone m'
  unfolding normalize_message phone_number
  message-Sound m m' h =
      let (t, _, made) = bind_ok (timestamp_of (read_time m.timestamp)) _ m' h in
      let valid = valid_of "invalid normalized Meta message" _ m' made in
      let built = inbound_of m (message_metadata m phone) t in
      let same = message_same built m' valid in
      subst (SoundMessage phone) same (has_phone m phone, refl, refl, valid ∙ ap ok (sym same))

  status-Sound :
      (s : MetaStatus) (s' : MetaStatusUpdate)
      → normalize_status read_time phone s ≡ ok s'
      → SoundStatus phone s'
  unfolding normalize_status
  status-Sound s s' h =
      let (t, _, made) = bind_ok (timestamp_of (read_time s.timestamp)) _ s' h in
      let valid = valid_of "invalid normalized Meta status" _ s' made in
      let same = status_same (update_of s phone t) s' valid in
      subst (SoundStatus phone) same (refl, valid ∙ ap ok (sym same))

  messages-Sound :
      (ms : List MetaMessage) (ms' : List InboundMessage)
      → normalize_messages read_time phone ms ≡ ok ms'
      → All (SoundMessage phone) ms'
  unfolding normalize_messages
  messages-Sound [] ms' h = subst (All (SoundMessage phone)) (ok_inj h) tt
  messages-Sound (m ∷ ms) ms' h =
      let (m', one, rest) = bind_ok (normalize_message read_time phone m) _ ms' h in
      let (more, others, built) = bind_ok (normalize_messages read_time phone ms) _ ms' rest in
      subst (All (SoundMessage phone)) (ok_inj built)
        (message-Sound m m' one, messages-Sound ms more others)

  statuses-Sound :
      (ss : List MetaStatus) (ss' : List MetaStatusUpdate)
      → normalize_statuses read_time phone ss ≡ ok ss'
      → All (SoundStatus phone) ss'
  unfolding normalize_statuses
  statuses-Sound [] ss' h = subst (All (SoundStatus phone)) (ok_inj h) tt
  statuses-Sound (s ∷ ss) ss' h =
      let (s', one, rest) = bind_ok (normalize_status read_time phone s) _ ss' h in
      let (more, others, built) = bind_ok (normalize_statuses read_time phone ss) _ ss' rest in
      subst (All (SoundStatus phone)) (ok_inj built)
        (status-Sound s s' one, statuses-Sound ss more others)

un_not : (b : Bool) → not b ≡ false → b ≡ true
un_not true h = refl
un_not false h = absurd (cc)

module _ (read_time : String → TimeRead) (waba : Option String) (phone : String) where
  abbrev pub Sound : MetaWebhookEvents → Type 0
  Sound e = All (SoundMessage phone) e.messages × All (SoundStatus phone) e.statuses

  changes-Sound :
      (vs : List MetaValue) (e : MetaWebhookEvents)
      → normalize_changes read_time waba (some phone) vs ≡ ok e
      → Sound e
  unfolding normalize_changes
  changes-Sound [] e h = subst Sound (ok_inj h) (tt, tt)
  changes-Sound (v ∷ vs) e h =
      let (expected, passed) = unless_ok _ _ _ e h in
      let is : v.metadata.phone_number_id ≡ phone =
        (eq_iff v.metadata.phone_number_id phone).0
          (un_not (str_eq v.metadata.phone_number_id phone) expected) in
      let (ms, messages, rest) =
        bind_ok (normalize_messages read_time v.metadata.phone_number_id v.messages) _ e passed in
      let (ss, statuses, rest') =
        bind_ok (normalize_statuses read_time v.metadata.phone_number_id v.statuses) _ e rest in
      let (more, others, built) =
        bind_ok (normalize_changes read_time waba (some phone) vs) _ e rest' in
      let (a, b) = changes-Sound vs more others in
      let a' =
        subst (λ q. All (SoundMessage q) ms) is
          (messages-Sound read_time v.metadata.phone_number_id v.messages ms messages) in
      let b' =
        subst (λ q. All (SoundStatus q) ss) is
          (statuses-Sound read_time v.metadata.phone_number_id v.statuses ss statuses) in
      subst Sound (ok_inj built) (
        All-append (SoundMessage phone) ms more.messages a' a,
        All-append (SoundStatus phone) ss more.statuses b' b,
      )

  entries-Sound :
      (es : List MetaEntry) (e : MetaWebhookEvents)
      → normalize_entries read_time waba (some phone) es ≡ ok e
      → Sound e
  unfolding normalize_entries
  entries-Sound [] e h = subst Sound (ok_inj h) (tt, tt)
  entries-Sound (x ∷ es) e h =
      let (expected, passed) = unless_ok _ _ _ e h in
      let (here, these, rest) =
        bind_ok (normalize_changes read_time waba (some phone) x.changes) _ e passed in
      let (more, others, built) =
        bind_ok (normalize_entries read_time waba (some phone) es) _ e rest in
      let (a, b) = changes-Sound x.changes here these in
      let (c, d) = entries-Sound es more others in
      subst Sound (ok_inj built) (
        All-append (SoundMessage phone) here.messages more.messages a c,
        All-append (SoundStatus phone) here.statuses more.statuses b d,
      )

  -- With an expected phone number, every message and every status of a payload that
  -- `normalize_webhook` accepts carries that number and passes its own validator, and every
  -- message is of WhatsApp with its sender as its conversation.
  pub normalize_webhook-Sound :
      (payload : Option (List MetaEntry)) (e : MetaWebhookEvents)
      → normalize_webhook read_time waba (some phone) payload ≡ ok e
      → Sound e
  unfolding normalize_webhook
  normalize_webhook-Sound none e h = absurd (cc)
  normalize_webhook-Sound (some es) e h = entries-Sound es e h
