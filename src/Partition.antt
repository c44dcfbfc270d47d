-- ===== src/Partition.antt =====
-- lithops/job/partitioner.py: an object is cut into byte ranges, one for each function call.
-- `Split` holds the cutting of one object, `Objects` what the three kinds of object share, `Local`
-- the urls and the files, whose threads `Threads` interleaves, `Bucket` the object stores and `Create`
-- the choice between them. Sizes and counts of the user or of a header are natural numbers.
mod Split
mod Objects
mod Local
mod Threads
mod Bucket
mod Create
pub mod Coverage
pub mod Number
pub mod Sharing
pub mod Urls
pub mod Counts
unfoldable pub use Split.*
unfoldable pub use Objects.*
unfoldable pub use Local.*
unfoldable pub use Threads.*
unfoldable pub use Bucket.*
unfoldable pub use Create.*
