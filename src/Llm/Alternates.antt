-- ===== src/Llm/Alternates.antt =====
-- The messages that src/piki/integrations/llm/openai_chat.py sends.
use Prim.Native.String.{◌++◌ as append}
use buenpick_piki.Base.{
  ◌≡◌, refl, String, false, List, [], ◌∷◌, All, ap, sym, ◌∙◌, arith, Bool-cases, inl, inr,
}
use mathlib.Core.Path.{subst}
use buenpick_piki.Composition.Engine.{Role, user, assistant, ConversationTurn, CompositionRequest}
use buenpick_piki.Llm.Chat.{
  ChatRole, ChatMessage, system, user_role, same_role, append_last, append_message, append_turns,
  messages_of, chat_role, instruction,
}

-- the first message, if any, has another role
abbrev pub Follows : ChatRole → List ChatMessage → Type 0
Follows r [] = Unit {0}
Follows r (m ∷ ms) = same_role r m.role ≡ false

-- no message has the role of the one before it
abbrev pub Alternates : List ChatMessage → Type 0
Alternates [] = Unit {0}
Alternates (m ∷ ms) = Follows m.role ms × Alternates ms

abbrev pub Spoken : ChatMessage → Type 0
Spoken m = same_role system m.role ≡ false

module _ (role : ChatRole) (content : String) where
  last-Follows :
      (r : ChatRole) (m : ChatMessage)
      → same_role r m.role ≡ false
      → Follows r (append_last m role content)
  last-Follows r m h = elim (Bool-cases (same_role m.role role)) [
    | inl e ↦ rw e (ground arith)
    | inr e ↦ rw e h
  ]

  append-Follows :
      (r : ChatRole) (m : ChatMessage) (ms : List ChatMessage)
      → same_role r m.role ≡ false
      → Follows r (append_message (m ∷ ms) role content)
  unfolding append_message
  append-Follows r m [] h = last-Follows r m h
  append-Follows r m (n ∷ ms) h = h

  append-Alternates :
      (ms : List ChatMessage) → Alternates ms → Alternates (append_message ms role content)
  unfolding append_message
  append-Alternates [] h = (tt, tt)
  append-Alternates (m ∷ []) h = elim (Bool-cases (same_role m.role role)) [
    | inl e ↦ rw e (tt, tt)
    | inr e ↦ rw e (e, (tt, tt))
  ]
  append-Alternates (m ∷ n ∷ ms) h =
      (append-Follows m.role n ms h.0, append-Alternates (n ∷ ms) h.1)

  module _ (spoken : same_role system role ≡ false) where
    append-Spoken :
        (ms : List ChatMessage) → All Spoken ms → All Spoken (append_message ms role content)
    unfolding append_message
    append-Spoken [] h = (spoken, tt)
    append-Spoken (m ∷ []) h = elim (Bool-cases (same_role m.role role)) [
      | inl e ↦ rw e (spoken, tt)
      | inr e ↦ rw e (h.0, (spoken, tt))
    ]
    append-Spoken (m ∷ n ∷ ms) h = (h.0, append-Spoken (n ∷ ms) h.1)

    after_system :
        (m : ChatMessage) (ms : List ChatMessage)
        → m.role ≡ system
        → append_message (m ∷ ms) role content ≡ m ∷ append_message ms role content
    unfolding append_message
    after_system m [] h = rw (h, spoken) refl
    after_system m (n ∷ ms) h = refl

Spoken-Follows : (ms : List ChatMessage) → All Spoken ms → Follows system ms
Spoken-Follows [] h = tt
Spoken-Follows (m ∷ ms) h = h.0

turn-Spoken : (r : Role) → same_role system (chat_role r) ≡ false
turn-Spoken user = refl
turn-Spoken assistant = refl

turns-Alternates :
    (ts : List ConversationTurn) (ms : List ChatMessage)
    → Alternates ms
    → All Spoken ms
    → Alternates (append_turns ms ts) × All Spoken (append_turns ms ts)
unfolding append_turns
turns-Alternates [] ms h k = (h, k)
turns-Alternates (t ∷ ts) ms h k =
    turns-Alternates ts (append_message ms (chat_role t.role) t.text)
      (append-Alternates (chat_role t.role) t.text ms h)
      (append-Spoken (chat_role t.role) t.text (turn-Spoken t.role) ms k)

turns_after_system :
    (ts : List ConversationTurn) (m : ChatMessage) (ms : List ChatMessage)
    → m.role ≡ system
    → append_turns (m ∷ ms) ts ≡ m ∷ append_turns ms ts
unfolding append_turns
turns_after_system [] m ms h = refl
turns_after_system (t ∷ ts) m ms h =
    ap (λ l. append_turns l ts) (after_system (chat_role t.role) t.text (turn-Spoken t.role) m ms h)
    ∙ turns_after_system ts m (append_message ms (chat_role t.role) t.text) h

abbrev pub prompt : CompositionRequest → ChatMessage
prompt r = record { role = system; content = r.system_prompt }

-- The messages for a chat model begin with the system prompt as it was given, no later message has
-- the system's role, and no message has the role of the one before it.
pub messages_of-Alternates :
    (r : CompositionRequest)
    → (rest : List ChatMessage) × (messages_of r ≡ prompt r ∷ rest)
      × Alternates (messages_of r)
      × All Spoken rest
unfolding messages_of
messages_of-Alternates r =
    let text = append instruction r.evidence_prompt in
    let turns = append_turns [] r.conversation in
    let (alternate, all_spoken) = turns-Alternates r.conversation [] tt tt in
    let rest = append_message turns user_role text in
    let spoken_rest = append-Spoken user_role text refl turns all_spoken in
    let built : messages_of r ≡ prompt r ∷ rest =
      ap (λ l. append_message l user_role text)
        (turns_after_system r.conversation (prompt r) [] refl)
      ∙ after_system user_role text refl (prompt r) turns refl in
    (
      rest,
      built,
      subst Alternates (sym built)
          (Spoken-Follows rest spoken_rest, append-Alternates user_role text turns alternate),
      spoken_rest,
    )
