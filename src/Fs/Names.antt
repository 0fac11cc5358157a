-- ===== src/Fs/Names.antt =====
-- Names and paths of fs/namei.c: name_eq(), the components that namei() reads, and split_path().
mod Defs
pub mod Match
pub mod Split
unfoldable pub use Defs.*
