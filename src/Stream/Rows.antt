-- ===== src/Stream/Rows.antt =====
-- Whole rows: what the chunks of an object with a newline give, read one after the other.
mod Window
mod Starts
mod Parts
mod Whole
pub use Window.*
pub use Starts.*
pub use Parts.*
pub use Whole.*
