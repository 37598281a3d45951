-- ===== src/Db.antt =====
-- The PostgreSQL tables (packages/db/src/schema), and the transactions on them.
mod Rows
pub mod Transaction
pub use Rows.*
