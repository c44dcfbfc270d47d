-- ===== src/Job.antt =====
-- lithops/job/job.py: how a job is made for the workers, and what is stored for it.
mod Modules
mod Create
mod Reduce
pub mod Slices
pub mod Upload
pub mod Carry
unfoldable pub use Modules.*
unfoldable pub use Create.*
unfoldable pub use Reduce.*
