-- ===== src/Mm/Swap.antt =====
-- Swap slots and the transfer of a page to and from the swap device.
mod Defs
pub mod Slots
unfoldable pub use Defs.*
