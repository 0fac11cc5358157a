-- ===== src/Mm/Space.antt =====
-- Frames for tasks, and the address spaces built from them.
mod Alloc
mod Defs
mod Copy
mod Fault
pub mod Refs
pub mod Share
pub mod Fork
mod Grant
pub mod Unshare
pub mod SwapIn
pub mod Window
mod Examples
unfoldable pub use Alloc.*
unfoldable pub use Defs.*
unfoldable pub use Copy.*
unfoldable pub use Fault.*
