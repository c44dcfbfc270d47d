-- ===== src/Future.antt =====
-- lithops/future.py: the state of one call as its client sees it.
mod Fields
mod Query
pub mod Lifecycle
pub mod Results
unfoldable pub use Fields.*
unfoldable pub use Query.*
