-- ===== src/Kernel/Wait.antt =====
-- sys_waitpid() of kernel/process.c.
mod Defs
pub mod Outcomes
mod Examples
unfoldable pub use Defs.*
