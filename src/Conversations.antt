-- ===== src/Conversations.antt =====
-- src/piki/db/conversations.py: conversations and their messages.
pub mod Store
pub mod Recording
pub mod Idempotence
pub mod Replies
pub mod History
