-- ===== src/Mm.antt =====
-- Memory management (mm/memory.c).
pub mod State
pub mod Frames
pub mod Swap
pub mod Reclaim
pub mod Space
pub mod Heap
mod Examples
