-- ===== src/Multiprocessing/References.antt =====
-- RemoteReference of lithops/multiprocessing/util.py.
mod Defs
unfoldable pub use Defs.*
pub mod Counts
