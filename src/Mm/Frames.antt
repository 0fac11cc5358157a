-- ===== src/Mm/Frames.antt =====
-- The page frame map: the scan of get_free_page(), free_page() and count_free_pages().
mod Defs
pub mod Counts
pub mod Init
unfoldable pub use Defs.*
