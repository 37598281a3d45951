-- ===== src/Tables.antt =====
-- A database table as the list of its rows, and the queries that the repositories send:
-- `SELECT ... LIMIT 1`, `SELECT ... WHERE`, `SELECT count(*)`, `UPDATE ... SET ... WHERE`.
-- An `INSERT` puts the row at the end.
mod Laws
mod Updates
mod Unique
pub use Laws.*
pub use Updates.*
pub use Unique.*
unfoldable pub use Defs.*
mod Defs
