-- ===== src/UseCases.antt =====
-- src/piki/use_cases: what combines the tools with the state of a conversation.
pub mod PickImage
pub mod Prepared
