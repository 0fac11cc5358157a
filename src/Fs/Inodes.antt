-- ===== src/Fs/Inodes.antt =====
-- fs/inode.c: the inode table in front of the inodes on the disks.
mod Defs
pub mod Content
pub mod Reuse
pub mod Relabel
pub mod Flush
pub mod Iget
mod Examples
unfoldable pub use Defs.*
