-- ===== src/Multiprocessing.antt =====
-- lithops/multiprocessing: locks, lists and queues that processes share over Redis.
mod Synchronize
unfoldable pub use Synchronize.*
pub mod Exclusion
pub mod Lists
pub mod References
pub mod Queues
pub mod Conditions
