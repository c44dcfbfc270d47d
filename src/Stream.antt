-- ===== src/Stream.antt =====
-- How a worker reads its part of an object: `WrappedStreamingBody` and
-- `WrappedStreamingBodyPartition` of lithops/utils.py, and `_load_object` of
-- lithops/worker/jobrunner.py.
mod Body
mod Load
mod Search
pub mod Rows
unfoldable pub use Body.*
unfoldable pub use Load.*
