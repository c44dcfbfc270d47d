-- ===== src/Localhost.antt =====
-- lithops/localhost/v2/localhost.py: the work queue of the local backend and its latches.
mod Work
unfoldable pub use Work.*
pub mod Puts
pub mod Latches
pub mod Calls
