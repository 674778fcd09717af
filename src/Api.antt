-- ===== src/Api.antt =====
-- src/piki/api: what the HTTP routes answer.
pub mod Answers
pub mod Webhook
pub mod Chat
pub mod Health
pub mod Signed
pub mod Blank
pub mod App
pub mod Configured
