-- ===== src/Fs/Buffers.antt =====
-- The buffer cache (fs/buffer.c).
mod Defs
pub mod Cached
pub mod Change
pub mod Chains
pub mod Recycle
pub mod Getblk
pub mod Ring
pub mod Bread
pub mod Sync
pub mod Order
pub mod Store
pub mod Dirtied
pub mod Through
pub mod Refine
pub mod Init
mod Examples
unfoldable pub use Defs.*
