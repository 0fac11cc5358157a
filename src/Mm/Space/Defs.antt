-- ===== src/Mm/Space/Defs.antt =====
-- Building and changing one address space. `window_base` is USER_BASE.
use linux.Base.{
  ℕ, zero, suc, ◌+◌, ◌/◌, ◌%◌, ◌^◌, Bool, true, false, not, ◌&&◌, ◌||◌, Option, none, some, ltb,
  leb, ◌==◌, if◌then◌else◌, update, replicate,
}
use linux.Mm.State.{
  Mm, Pte, Table, no_pte, user_pte, frame_address, page_size, nr_ptes, pt_get, pt_set,
}
use linux.Mm.Frames.{free_page}
use linux.Mm.Swap.{Disk, swap_free_slot}
use linux.Mm.Space.Alloc.{get_free_page}

abbrev pub window_base : ℕ
window_base = 0x08000000

-- The regions of the user window: program, heap, stack, and the page above the stack.
abbrev pub prog_end : ℕ
prog_end = window_base + 0x100000

abbrev pub heap_end : ℕ
heap_end = window_base + 0x200000

abbrev pub stack_floor : ℕ
stack_floor = window_base + 0x300000

abbrev pub stack_top : ℕ
stack_top = window_base + 0x3FF000

abbrev pub window_top : ℕ
window_top = window_base + 0x400000

-- user_addr_ok(): `addr + len` wraps at 2 ^ 32.
unfoldable pub user_addr_ok : ℕ → ℕ → Bool
user_addr_ok addr len =
    let end_ = (addr + len) % 2 ^ 32 in
    if ltb end_ addr
    then false
    else leb window_base addr && leb end_ prog_end
      || leb prog_end addr && leb end_ heap_end
      || leb stack_floor addr && leb end_ stack_top
      || leb stack_top addr && leb end_ window_top

-- (va >> 12) & 0x3FF
abbrev pub pte_index : ℕ → ℕ
pte_index va = va / page_size % nr_ptes

-- Does the directory lead to a user page table?
abbrev pub has_table : Option Table → Bool
has_table none = false
has_table (some t) = true

-- pte_slot() is not NULL: the address lies in the window and the window's entry is there.
abbrev pub has_slot : Mm → ℕ → ℕ → Bool
has_slot s dir va = va / 0x400000 == window_base / 0x400000 && has_table (s.dirs dir)

-- The loop of free_page_tables(), over the entries of `dir` from `i` on.
unfoldable pub release_entry : ℕ → ℕ → Mm → Mm
release_entry dir i s =
    let pte = pt_get s dir i in
    let s' =
      if pte.present
      then free_page (frame_address pte) s
      else if pte.swapped
      then swap_free_slot pte.base s
      else s in
    pt_set s' dir i no_pte

unfoldable pub release_entries : ℕ → ℕ → ℕ → Mm → Mm
unfolding release_entry
release_entries zero dir i s = s
release_entries (suc n) dir i s = release_entries n dir (i + 1) (release_entry dir i s)

-- free_page_tables() over the whole window; a directory that has no table is left as it is.
unfoldable pub free_page_tables : ℕ → Mm → Mm
unfolding release_entries
free_page_tables dir s = elim (s.dirs dir) [
  | none ↦ s
  | some t ↦
      let s' = free_page t.address (release_entries nr_ptes dir 0 s) in
      record s' { dirs = update s'.dirs dir none }
]

unfoldable pub free_user_space : ℕ → Mm → Mm
unfolding free_page_tables
free_user_space dir s = if dir == 0 then s else free_page dir (free_page_tables dir s)

unfoldable pub map_user_page : ℕ → ℕ → Pte → Mm → Mm
map_user_page dir va pte s = if has_slot s dir va then pt_set s dir (pte_index va) pte else s

module _ (d : Disk) where
  -- A directory and one empty page table, or 0.
  unfoldable pub alloc_user_pgdir : Mm → ℕ × Mm
  alloc_user_pgdir s =
      let (dir, s1) = get_free_page d s in
      if dir == 0
      then (0, s1)
      else let (pt, s2) = get_free_page d s1 in
        if pt == 0 then (0, free_page dir s2) else (
          dir,
          record s2 {
            dirs =
                update s2.dirs dir
                  (some (record { address = pt; entries = replicate nr_ptes no_pte }));
          },
        )

  unfoldable pub alloc_user_page : ℕ → ℕ → Mm → ℕ × Mm
  alloc_user_page dir va s =
      let (pa, s') = get_free_page d s in
      if pa == 0
      then (0, s')
      else if has_slot s' dir va
      then (pa, pt_set s' dir (pte_index va) (user_pte pa))
      else (0, free_page pa s')

  -- un_wp_page() for a directory and an address of the window: whether it succeeded. The entry is
  -- read before the new frame is allocated, the old page's words are read after.
  unfoldable pub un_wp_page : ℕ → ℕ → Mm → Bool × Mm
  un_wp_page dir va s =
      let pte = pt_get s dir (pte_index va) in
      if dir == 0 || not (has_slot s dir va) || not pte.present
      then (false, s)
      else let (new, s1) = get_free_page d s in
        if new == 0
        then (false, s1)
        else let s2 : Mm = record s1 {
          ram = update s1.ram (new / page_size) (s1.ram (frame_address pte / page_size));
        } in
          (true, free_page (frame_address pte) (pt_set s2 dir (pte_index va) (user_pte new)))
