-- ===== src/Fs/Files.antt =====
-- Regular files (fs/file_dev.c).
mod Defs
pub mod Reading
pub mod Reference
pub mod Held
pub mod Grow
pub mod Direct
pub mod Listed
pub mod Fill
pub mod Chain
pub mod Writing
mod Examples
unfoldable pub use Defs.*
