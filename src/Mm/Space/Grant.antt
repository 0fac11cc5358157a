-- ===== src/Mm/Space/Grant.antt =====
-- get_free_page() while a frame is free, and the slots of a window's addresses.
use linux.Base.{ℕ, ◌+◌, ◌*◌, ◌/◌, ◌≡◌, ◌≢◌, refl, inl, inr, true, arith}
use linux.Mm.State.{Mm, page_size, low_mem}
use linux.Mm.Frames.{take_frame, count_free_pages}
use linux.Mm.Frames.Counts.{Handed, grab_lem}
use linux.Mm.Swap.{Disk}
use linux.Mm.Space.Defs.{has_slot, window_base}
use linux.Mm.Space.Alloc.{get_free_page}
use linux.Mm.Space.Refs.{Whole}

-- With a free frame, get_free_page() takes one without reclaiming.
pub get_free_page-free :
    (d : Disk) (s : Mm)
    → count_free_pages s ≢ 0
    → (k : ℕ) × (get_free_page d s ≡ take_frame k s)
      × Handed k s (take_frame k s).0 (take_frame k s).1
unfolding get_free_page
get_free_page-free d s n = elim (grab_lem s) [
  | inl (_, z) ↦ absurd (n z)
  | inr (k, e, h, _) ↦ (k, rw (e, get_free_page) refl, h)
]

-- The address lies in the user window.
abbrev pub InWindow : ℕ → Type 0
InWindow address = address / 0x400000 ≡ window_base / 0x400000

pub has_slot-Whole : (s : Mm) (dir va : ℕ) → InWindow va → Whole s dir → has_slot s dir va ≡ true
has_slot-Whole s dir va w (t, e, _) = rw e (ground arith)

abbrev pub new_page : ℕ → ℕ
new_page k = low_mem + k * page_size
