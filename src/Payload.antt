-- ===== src/Payload.antt =====
-- The data of a job on its way to the workers: `agg_data` and `iterchunks` of lithops/utils.py,
-- `get_function_data` of lithops/worker/utils.py, and the keys of lithops/storage/utils.py.
mod Data
mod Chunks
mod Keys
pub mod Ranges
pub mod Pieces
unfoldable pub use Data.*
unfoldable pub use Chunks.*
unfoldable pub use Keys.*
