-- ===== src/Strings.antt =====
-- The block and character functions of lib/string.c and lib/ctype.c.
mod Defs
pub mod Move
mod Examples
unfoldable pub use Defs.*
