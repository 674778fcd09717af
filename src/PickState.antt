-- ===== src/PickState.antt =====
-- src/piki/state/active_pick.py and src/piki/state/pending_actions.py: what a conversation is about.
pub mod Values
pub mod Actions
pub mod Active
pub mod Consumed
pub mod Remembered
