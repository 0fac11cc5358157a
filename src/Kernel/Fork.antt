-- ===== src/Kernel/Fork.antt =====
-- sys_fork() of kernel/process.c: the slot, the references and the address space of the child.
mod Defs
pub mod Shares
mod Examples
unfoldable pub use Defs.*
