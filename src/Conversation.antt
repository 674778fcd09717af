-- ===== src/Conversation.antt =====
-- src/piki/conversation/service.py: the orchestrator of a conversation.
pub mod Intents
pub mod Service
pub mod Locked
pub mod Released
pub mod Replayed
pub mod Stable
pub mod Redelivered
pub mod Worker
pub mod Settled
pub mod Kept
pub mod Sent
pub mod Responded
pub mod Handled
pub mod Compose
pub mod Composed
pub mod Outage
