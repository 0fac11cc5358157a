-- ===== src/Fs/Pipe.antt =====
-- Pipes: read_pipe() and write_pipe() of fs/pipe.c over one pipe inode.
mod Defs
pub mod Queue
pub mod Transfer
pub mod Schedule
mod Examples
unfoldable pub use Defs.*
