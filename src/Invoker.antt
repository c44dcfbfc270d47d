-- ===== src/Invoker.antt =====
-- lithops/invokers.py, FaaSInvoker: which calls are invoked at once, which wait, and for what.
mod Queue
mod Threads
pub mod Workers
pub mod Conservation
unfoldable pub use Queue.*
unfoldable pub use Threads.*
mod Runtime
mod Runs
mod Tasks
unfoldable pub use Runtime.*
unfoldable pub use Runs.*
unfoldable pub use Tasks.*
pub mod Deployment
pub mod Loads
pub mod Delivery
