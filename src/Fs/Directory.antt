-- ===== src/Fs/Directory.antt =====
-- fs/namei.c: the entries of a directory. `Directory.Live` and `Directory.Update` prove what a
-- search finds after an entry is added or removed, `Directory.Replay` puts calls in sequence.
mod Defs
pub mod Live
pub mod Removal
pub mod Replay
pub mod Rename
mod Examples
unfoldable pub use Defs.*
