-- ===== src/Mm/Swap/Defs.antt =====
-- The slot map, and the two transfers over the disk driver.
use linux.Base.{
  ℕ, ◌+◌, ◌-◌, ◌*◌, ◌/◌, ◌≡◌, Bool, true, false, Option, none, some, ltb, leb, if◌then◌else◌, set,
  update,
}
use linux.Mm.State.{Mm, page_size}
use linux.Mm.Frames.{find_free, count_free}

abbrev pub swap_start_lba : ℕ
swap_start_lba = 2048

abbrev pub swap_slot_sectors : ℕ
swap_slot_sectors = 8

abbrev pub nr_swap_slots : ℕ
nr_swap_slots = 512

abbrev pub swap_lba : ℕ → ℕ
swap_lba slot = swap_start_lba + slot * swap_slot_sectors

-- hd_write_sectors() and hd_read_sectors() of a page at a sector address: whether the transfer
-- succeeded, and the state after it. The driver sleeps, so other tasks may have changed the state.
pub record Disk : Type 0 where
  pub write : ℕ → ℕ → Mm → Bool × Mm
  pub read : ℕ → ℕ → Mm → Bool × Mm

-- A drive that works, on a machine where no other task runs meanwhile.
abbrev pub stored : ℕ → ℕ → Mm → Mm
stored lba pa s = record s {
  swap_dev =
      update s.swap_dev ((lba - swap_start_lba) / swap_slot_sectors) (s.ram (pa / page_size));
}

abbrev pub fetched : ℕ → ℕ → Mm → Mm
fetched lba pa s = record s {
  ram = update s.ram (pa / page_size) (s.swap_dev ((lba - swap_start_lba) / swap_slot_sectors));
}

pub record IsQuiet (d : Disk) : Type 0 where
  pub writes : (lba pa : ℕ) (s : Mm) → d.write lba pa s ≡ (true, stored lba pa s)
  pub reads : (lba pa : ℕ) (s : Mm) → d.read lba pa s ≡ (true, fetched lba pa s)

unfoldable pub swap_slots_free : Mm → ℕ
swap_slots_free s = count_free s.swap_map

unfoldable pub swap_free_slot : ℕ → Mm → Mm
swap_free_slot slot s =
    if ltb slot nr_swap_slots then record s { swap_map = set s.swap_map slot 0 } else s

-- The slot taken, or `none` for -1.
unfoldable pub swap_alloc_slot : Mm → Option (ℕ × Mm)
swap_alloc_slot s = elim (find_free s.swap_map 0) [
  | none ↦ none
  | some slot ↦ some (slot, record s { swap_map = set s.swap_map slot 1 })
]

-- What follows the transfer in swap_out_page().
unfoldable pub swap_written : ℕ → Bool × Mm → Option ℕ × Mm
unfolding swap_free_slot
swap_written slot (ok, s) =
    if ok
    then (some slot, record s { nr_swapouts = s.nr_swapouts + 1 })
    else (none, swap_free_slot slot s)

-- What follows the transfer in swap_in_page().
unfoldable pub swap_read : Bool × Mm → Bool × Mm
swap_read (ok, s) = if ok then (true, record s { nr_swapins = s.nr_swapins + 1 }) else (false, s)

module _ (d : Disk) where
  unfoldable pub swap_out_page : ℕ → Mm → Option ℕ × Mm
  unfolding swap_alloc_slot swap_written
  swap_out_page pa s = elim (swap_alloc_slot s) [
    | none ↦ (none, s)
    | some (slot, s') ↦ swap_written slot (d.write (swap_lba slot) pa s')
  ]

  unfoldable pub swap_in_page : ℕ → ℕ → Mm → Bool × Mm
  unfolding swap_read
  swap_in_page slot pa s =
      if leb nr_swap_slots slot then (false, s) else swap_read (d.read (swap_lba slot) pa s)
