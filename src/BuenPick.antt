-- ===== src/BuenPick.antt =====
-- src/piki/integrations/buenpick: what the API of BuenPick answers.
pub mod Models
pub mod Money
pub mod Client
pub mod Attempts
pub mod Tools
pub mod Evidence
