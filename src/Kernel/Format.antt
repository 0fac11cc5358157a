-- ===== src/Kernel/Format.antt =====
-- kernel/vsprintf.c: the formatter of the kernel's messages.
mod Defs
pub mod Numbers
pub mod Bounds
pub mod Message
mod Examples
unfoldable pub use Defs.*
