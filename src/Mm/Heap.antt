-- ===== src/Mm/Heap.antt =====
-- The kernel heap (lib/malloc.c).
mod Defs
pub mod Blocks
mod Examples
unfoldable pub use Defs.*
