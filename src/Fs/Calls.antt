-- ===== src/Fs/Calls.antt =====
-- System calls on names (kernel/sys.c).
mod Defs
pub mod Entries
pub mod Unlink
pub mod Balance
pub mod Returns
pub mod Removals
pub mod Runs
pub mod Open
pub mod Checks
mod Examples
unfoldable pub use Defs.*
