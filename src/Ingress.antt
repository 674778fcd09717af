-- ===== src/Ingress.antt =====
-- src/piki/integrations/meta/ingress.py: what a webhook's events do.
pub mod Service
pub mod Known
pub mod Redelivery
pub mod Again
pub mod Normalized
