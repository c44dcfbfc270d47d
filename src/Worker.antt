-- ===== src/Worker.antt =====
-- lithops/worker: what a worker does with the calls of its payload.
mod Runner
mod Task
mod Processes
pub mod Refines
pub mod Shares
unfoldable pub use Runner.*
unfoldable pub use Task.*
unfoldable pub use Processes.*
