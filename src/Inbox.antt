-- ===== src/Inbox.antt =====
-- The inbox of server/src/data/repo.ts: the table `inbox` and the functions that write it. Times are
-- seconds, as in `datetime('now')`; each function that reads the clock takes the time.
pub mod Rows
pub mod Ids
pub mod Valid
pub mod Calls
pub mod Settling
pub mod Arrival
pub mod Doors
pub mod Grown
pub mod Sweep
mod Examples
pub mod Tables
unfoldable pub use Rows.*
unfoldable pub use Tables.*
