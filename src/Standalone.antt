-- ===== src/Standalone.antt =====
-- lithops/standalone: the tasks of the master's queues, the keeper that stops idle machines, and the
-- client's search for workers.
mod Master
mod Budget
mod Invocation
unfoldable pub use Master.*
unfoldable pub use Budget.*
unfoldable pub use Invocation.*
pub mod Machines
pub mod Scaling
pub mod Tasks
pub mod Idle
