-- ===== src/Processing.antt =====
-- src/piki/db/processing.py: the outbox of inbound messages that wait for the worker.
pub mod Store
pub mod Claims
pub mod Leases
pub mod Finished
pub mod Queue
