-- ===== src/Kernel/Signal.antt =====
-- Signals: kernel/process.c and sys_kill() of kernel/sys.c.
mod Defs
mod Deliver
mod Kill
pub mod Dispositions
pub mod Masks
pub mod Delivery
pub mod Groups
mod Examples
unfoldable pub use Defs.*
unfoldable pub use Deliver.*
unfoldable pub use Kill.*
