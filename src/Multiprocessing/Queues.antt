-- ===== src/Multiprocessing/Queues.antt =====
-- Queues of lithops/multiprocessing/queues.py.
mod Defs
unfoldable pub use Defs.*
pub mod Joins
pub mod Order
mod Items
pub mod Joined
