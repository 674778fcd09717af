-- ===== src/Meta.antt =====
-- src/piki/integrations/meta: the WhatsApp Cloud API.
pub mod Status
pub mod Payload
pub mod Webhook
pub mod Signed
pub mod Bodies
pub mod Adapter
pub mod Contract
