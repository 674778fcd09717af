-- ===== src/Coordination/Keys.antt =====
-- The Redis keys of src/piki/state/coordination.py and src/piki/state/active_pick.py. The hexadecimal
-- SHA-256 of a text is a parameter, `sha256`.
use Prim.Native.String.{◌++◌ as append}
use buenpick_piki.Base.{String}
use buenpick_piki.Domain.Messages.{Channel, whatsapp, web}

pub record ConversationScope : Type 0 where
  pub channel : Channel
  pub channel_account_id : String
  pub conversation_id : String

abbrev pub channel_value : Channel → String
channel_value whatsapp = "whatsapp"
channel_value web = "web"

-- `"\x1f".join((a, b))`
abbrev pub joined : String → String → String
joined a b = append a (append "\u{1f}" b)

module _ (sha256 : String → String) where
  unfoldable pub conversation_scope_digest : ConversationScope → String
  conversation_scope_digest scope =
      sha256 (
        joined (channel_value scope.channel)
          (joined scope.channel_account_id scope.conversation_id))

  -- `RedisConversationLock.key_for`
  unfoldable pub lock_key : ConversationScope → String
  unfolding conversation_scope_digest
  lock_key scope =
      append "piki:v1:conversation" (append ":" (append (conversation_scope_digest scope) ":lock"))

  -- `RedisMessageDeduplicator.key_for`
  unfoldable pub message_key : String → String → String
  message_key channel_account_id message_id =
      append "piki:v1:inbound-message" (append ":" (sha256 (joined channel_account_id message_id)))
