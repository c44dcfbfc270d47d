-- ===== src/Wait.antt =====
-- lithops/wait.py: which futures a client waits for, and when it has waited enough.
mod Check
mod Round
mod Loop
pub mod Enough
pub mod Progress
unfoldable pub use Check.*
unfoldable pub use Round.*
unfoldable pub use Loop.*
