-- ===== src/Coordination.antt =====
-- src/piki/state/coordination.py: the lock of a conversation and the deduplication of messages.
pub mod Redis
pub mod Keys
pub mod Locks
pub mod Held
pub mod Dedup
