-- ===== src/Composition.antt =====
-- src/piki/composition and src/piki/prompts: how a reply is worded, and what of it is checked.
pub mod Patterns
pub mod Grounding
pub mod Policies
pub mod Engine
pub mod Grounded
pub mod Fallback
