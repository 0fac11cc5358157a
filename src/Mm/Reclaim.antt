-- ===== src/Mm/Reclaim.antt =====
-- Reclaiming a page: try_to_free_page() and what it calls.
mod Defs
mod Scan
pub mod Contents
pub mod Races
unfoldable pub use Defs.*
unfoldable pub use Scan.*
