-- ===== src/Store.antt =====
-- The database: backend/app/models, one record for each table's rows, and the shape of a handler.
mod Rows
mod Monad
pub mod Queries
pub use Rows.*
pub use Monad.*
