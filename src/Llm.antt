-- ===== src/Llm.antt =====
-- src/piki/integrations/llm: the adapters of the language models.
pub mod Request
pub mod Chat
pub mod Alternates
pub mod Responses
