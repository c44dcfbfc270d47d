-- ===== src/Storage.antt =====
-- lithops/storage, and lithops/scripts/cleaner.py: what is kept and deleted behind a client's back.
mod CloudObjects
unfoldable pub use CloudObjects.*
pub mod Deletions
mod JobStatus
unfoldable pub use JobStatus.*
mod Patterns
pub mod Names
pub mod Listing
mod RuntimeMeta
unfoldable pub use RuntimeMeta.*
pub mod Runtimes
mod Cleaner
unfoldable pub use Cleaner.*
pub mod Buckets
pub mod Cleaned
