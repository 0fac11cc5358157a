-- ===== src/Fs/Dcache.antt =====
-- fs/namei.c: the directory-entry cache, and the searches and changes of directories that keep it.
mod Defs
pub mod Coherence
pub mod Transparent
mod Examples
unfoldable pub use Defs.*
