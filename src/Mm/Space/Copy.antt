-- ===== src/Mm/Space/Copy.antt =====
-- copy_page_tables(): fork() shares every page of the parent with the child.
use linux.Base.{
  ℕ, zero, suc, ◌+◌, Bool, true, false, not, ◌&&◌, ◌||◌, Option, none, some, ltb, ◌==◌,
  if◌then◌else◌, set,
}
use linux.Mm.State.{
  Mm, Pte, user_pte, frame_address, nr_ptes, pt_get, pt_set, map_nr, frame_count, used,
}
use linux.Mm.Frames.{free_page}
use linux.Mm.Swap.{Disk, swap_in_page, swap_free_slot}
use linux.Mm.Space.Alloc.{get_free_page}
use linux.Mm.Space.Defs.{has_table}

-- (pte & ~PTE_RW) | PTE_COW
abbrev pub shared_pte : Pte → Pte
shared_pte pte = record pte { rw = false; cow = true }

-- if (mem_map[MAP_NR(pa)] < USED) mem_map[MAP_NR(pa)]++
unfoldable pub add_reference : ℕ → Mm → Mm
add_reference i s =
    if ltb (frame_count s i) used
    then record s { mem_map = set s.mem_map i (frame_count s i + 1) }
    else s

-- The second half of the loop's body: an entry that is present is shared.
unfoldable pub share_entry : ℕ → ℕ → ℕ → Mm → Mm
unfolding add_reference
share_entry from to i s =
    let pte = pt_get s from i in
    if not pte.present
    then s
    else let s' = add_reference (map_nr (frame_address pte)) s in
      pt_set (pt_set s' from i (shared_pte pte)) to i (shared_pte pte)

-- The first half: a page on the swap device is brought back. The Boolean is false when that fails.
module _ (d : Disk) where
  unfoldable pub bring_in : ℕ → ℕ → Mm → Bool × Mm
  bring_in from i s =
      let pte = pt_get s from i in
      if pte.present || not pte.swapped
      then (true, s)
      else let (frame, s1) = get_free_page d s in
        if frame == 0
        then (false, s1)
        else let (ok, s2) = swap_in_page d pte.base frame s1 in
          if ok
          then (true, pt_set (swap_free_slot pte.base s2) from i (user_pte frame))
          else (false, free_page frame s2)

  -- `n` rounds are left, from entry `i`, with `shared` pages so far; `none` is -1.
  unfoldable pub copy_loop : ℕ → ℕ → ℕ → ℕ → ℕ → Mm → Option ℕ × Mm
  unfolding share_entry bring_in
  copy_loop zero from to i shared s = (some shared, s)
  copy_loop (suc n) from to i shared s =
      let (ok, s') = bring_in from i s in
      elim ok [
        | false ↦ (none, s')
        | true ↦
            copy_loop n from to (i + 1) (shared + (if (pt_get s' from i).present then 1 else 0))
              (share_entry from to i s')
      ]

  unfoldable pub copy_page_tables : ℕ → ℕ → Mm → Option ℕ × Mm
  unfolding copy_loop
  copy_page_tables from to s =
      if not (has_table (s.dirs from) && has_table (s.dirs to))
      then (none, s)
      else copy_loop nr_ptes from to 0 0 s
