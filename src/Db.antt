-- ===== src/Db.antt =====
-- src/piki/db/models.py and src/piki/db/session.py: the tables, and a session as a transaction.
pub mod Models
pub mod Session
