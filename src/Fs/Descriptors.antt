-- ===== src/Fs/Descriptors.antt =====
-- The descriptor table of a task: sys_close(), sys_dup() and sys_dup2() of kernel/sys.c.
mod Defs
pub mod Counts
pub mod Dup
mod Examples
unfoldable pub use Defs.*
