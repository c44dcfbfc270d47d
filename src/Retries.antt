-- ===== src/Retries.antt =====
-- lithops/retries.py: futures whose call is made again when it failed.
mod Wait
pub mod Lookup
pub mod Fine
pub mod Settled
unfoldable pub use Wait.*
