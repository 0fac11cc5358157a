-- ===== src/Fs/Namei.antt =====
-- namei() of fs/namei.c: the walk along a path, and the references it holds.
mod Defs
pub mod Balance
pub mod Resolve
pub mod Samples
mod Examples
unfoldable pub use Defs.*
