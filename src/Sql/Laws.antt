-- ===== src/Sql/Laws.antt =====
-- The laws of the SQL statements.
mod Rows
mod Keys
unfoldable pub use Rows.*
pub use Keys.*
