-- ===== src/Config.antt =====
-- src/piki/core/config.py: the settings, and the factories that read them.
pub mod Settings
pub mod Factories
pub mod Usable
