-- ===== src/Multiprocessing/Lists.antt =====
-- ListProxy of lithops/multiprocessing/managers.py.
mod Proxy
unfoldable pub use Proxy.*
pub mod Slices
pub mod Methods
pub mod Refines
pub mod Assign
