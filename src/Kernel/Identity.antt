-- ===== src/Kernel/Identity.antt =====
-- User and group ids, process groups, priorities and alarms: the small system calls of kernel/sys.c.
mod Defs
pub mod Rights
mod Examples
unfoldable pub use Defs.*
