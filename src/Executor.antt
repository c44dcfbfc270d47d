-- ===== src/Executor.antt =====
-- FunctionExecutor of lithops/executors.py: the calls that a client made, and what it has read and
-- cleaned of them.
mod Ids
mod State
mod Cleaning
mod Calls
pub mod Results
unfoldable pub use Ids.*
unfoldable pub use State.*
unfoldable pub use Cleaning.*
unfoldable pub use Calls.*
pub mod Names
pub mod Cleaned
