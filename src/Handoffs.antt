-- ===== src/Handoffs.antt =====
-- src/piki/db/handoffs.py: requests for a human.
pub mod Store
pub mod Requests
