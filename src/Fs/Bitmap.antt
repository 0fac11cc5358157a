-- ===== src/Fs/Bitmap.antt =====
-- fs/bitmap.c: the maps of zones and inodes in use.
mod Defs
pub mod Scan
pub mod Zones
pub mod Truncate
mod Examples
unfoldable pub use Defs.*
