-- ===== src/Multiprocessing/Conditions.antt =====
-- Conditions of lithops/multiprocessing/synchronize.py.
mod Defs
pub mod Members
pub mod Tokens
mod Safe
mod Steps
unfoldable pub use Defs.*
pub mod Wakes
