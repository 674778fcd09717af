-- ===== src/Api/Blank.antt =====
-- Which messages of src/piki/api/chat.py reach the orchestrator.
use buenpick_piki.Base.{
  ℕ, ◌≡◌, refl, String, true, false, Option, none, some, truthy, fits, fits?, arith, ap, Bool-cases,
  inl, inr,
}
use buenpick_piki.Base.Failure.{Result, ok, err, value_error}
use buenpick_piki.Base.Text.{strip}
use buenpick_piki.Domain.Messages.{validate_text_message, InboundMessage}
use buenpick_piki.Conversation.Service.{ConversationReply}
use buenpick_piki.Api.Answers.{Http}
use buenpick_piki.Api.Chat.{
  ChatMessageRequest, validate_chat_request, Respond, responded, send_message, inbound_of, account,
  message_id_of, sent,
}

truthy-fits : (s : String) → fits 1 4096 s ≡ true → truthy s ≡ true
unfolding fits
truthy-fits String.[] h = absurd (cc)
truthy-fits (String.◌∷◌ c s) h = refl

module _ {W : Type 0} (respond : Respond W) (fresh : String) (now : ℕ) (r : ChatMessageRequest)
    (w : W) where
  abbrev pub answer : Result (Http ConversationReply) × W
  answer = send_message (some respond) fresh now r w

  identified :
      (id : Option String)
      → fits 1 255 fresh ≡ true
      → fits? 1 255 id ≡ true
      → fits 1 255 (message_id_of fresh id) ≡ true
  identified none h k = h
  identified (some s) h k = elim (Bool-cases (truthy s)) [ inl e ↦ rw e k | inr e ↦ rw e h ]

  abbrev inbound : InboundMessage
  inbound = inbound_of fresh now r

  accepts :
      fits 1 255 inbound.message_id ≡ true
      → fits 1 255 r.conversation_id ≡ true
      → fits 0 4096 r.message ≡ true
      → truthy r.message ≡ true
      → (truthy (strip r.message) ≡ true → validate_text_message inbound ≡ ok inbound)
        × (truthy (strip r.message) ≡ false
            → validate_text_message inbound
              ≡ err (value_error "text messages require non-empty text"))
  unfolding validate_text_message
  accepts id conversation text given = (
    λ h. rw (id, conversation, text, given, h) refl,
    λ h. rw (id, conversation, text, given, h) refl,
  )

  fields :
      validate_chat_request r ≡ true
      → (fits 1 255 r.conversation_id ≡ true)
        × (fits 1 4096 r.message ≡ true)
        × (fits? 1 255 r.message_id ≡ true)
  unfolding validate_chat_request
  fields h = ground arith

  within : fits 1 4096 r.message ≡ true → fits 0 4096 r.message ≡ true
  unfolding fits
  within h = ground arith

  -- Where the request's fields are in bounds and the fresh identifier fits: a message with words
  -- goes to the orchestrator and its answer is passed on, and a message of white space raises,
  -- with nothing done.
  pub send_message_branches :
      validate_chat_request r ≡ true
      → fits 1 255 fresh ≡ true
      → (truthy (strip r.message) ≡ true → answer ≡ responded (respond inbound account w))
        × (truthy (strip r.message) ≡ false
            → answer ≡ (err (value_error "text messages require non-empty text"), w))
  unfolding send_message
  send_message_branches valid new =
      let (conversation, text, id) = fields valid in
      let (accepted, refused) =
        accepts (identified r.message_id new id) conversation (within text)
          (truthy-fits r.message text) in
      (λ h. ap (sent respond w) (accepted h), λ h. ap (sent respond w) (refused h))
