-- ===== src/Monitor.antt =====
-- lithops/monitor.py: what the monitors make of the statuses that workers leave.
mod Tokens
pub mod Counts
pub mod Polls
unfoldable pub use Tokens.*
mod Tagging
unfoldable pub use Tagging.*
pub mod Marks
pub mod Rounds
