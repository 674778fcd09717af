-- ===== src/Delivery.antt =====
-- src/piki/delivery/service.py: durable delivery attempts, provider callbacks and the idempotent
-- service over them.
pub mod Types
pub mod Store
pub mod Service
pub mod Lifecycle
pub mod Callbacks
pub mod System
pub mod Once
pub mod Runs
pub mod Invariant
pub mod Kept
pub mod Order
pub mod Redelivery
