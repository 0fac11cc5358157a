-- ===== src/Mm/Space/Fault.antt =====
-- do_no_page() and page_in_image(): what a page fault does. The TLB flush and the messages are left
-- out; `killed` stands for the call of sys_exit(128 + SIGSEGV).
use linux.Base.{
  ℕ, ◌+◌, ◌-◌, ◌*◌, ◌/◌, Bool, true, false, not, ◌&&◌, ◌||◌, Option, none, some, List, [], ◌∷◌, ltb,
  leb, ◌==◌, if◌then◌else◌, min,
}
use linux.Mm.State.{Mm, MmTask, Region, user_pte, page_size, pt_get}
use linux.Mm.Frames.{free_page}
use linux.Mm.Swap.{Disk, swap_in_page, swap_free_slot}
use linux.Mm.Space.Alloc.{get_free_page}
use linux.Mm.Space.Defs.{
  user_addr_ok, has_slot, pte_index, map_user_page, un_wp_page, window_base, prog_end,
}

-- file_read() from the task's executable: the offset, the address to write to and the count; the
-- number of bytes read, and the state after it. It sleeps, as the disk does.
abbrev pub ReadExe : Type 0
ReadExe = MmTask → ℕ → ℕ → ℕ → Mm → ℕ × Mm

-- The region that holds an address, the first one if there are several.
unfoldable pub region_of : List Region → ℕ → Option Region
region_of [] va = none
region_of (r ∷ rs) va = if ltb va r.va || leb (r.va + r.memsz) va then region_of rs va else some r

pub data Fault : Type 0 where
  repaired : Mm → Fault
  killed : Mm → Fault

-- A write to a COW page, with the outcome of un_wp_page().
abbrev pub cow_done : Bool × Mm → Fault
cow_done (true, s) = repaired (record s { nr_cow_breaks = s.nr_cow_breaks + 1 })
cow_done (false, s) = killed (record s { nr_oom = s.nr_oom + 1 })

module _ (d : Disk) where
  -- The page is on the swap device.
  unfoldable pub swap_fault : ℕ → ℕ → ℕ → Mm → Fault
  swap_fault dir va slot s =
      let (pa, s1) = get_free_page d s in
      if pa == 0
      then killed s1
      else let (ok, s2) = swap_in_page d slot pa s1 in
        if ok
        then repaired (map_user_page dir va (user_pte pa) (swap_free_slot slot s2))
        else killed (free_page pa s2)

module _ (d : Disk) (file_read : ReadExe) where
  -- How page_in_image() fills a frame from a region; its result is not used.
  unfoldable pub fill_from : MmTask → Region → ℕ → ℕ → Mm → Mm
  fill_from t r va pa s =
      let delta = va - r.va in
      if leb r.filesz delta
      then s
      else let n = min (r.filesz - delta) page_size in
        let (got, s') = file_read t (r.file_off + delta) pa n s in
        if got == n then record s' { nr_page_ins = s'.nr_page_ins + 1 } else s'

  unfoldable pub page_in_image : MmTask → ℕ → ℕ → Mm → Mm
  unfolding region_of fill_from
  page_in_image t va pa s =
      if not t.has_exe
      then s
      else (elim (region_of t.regions va) [ none ↦ s | some r ↦ fill_from t r va pa s ])

  -- First touch: the frame is filled before it is mapped.
  unfoldable pub demand_fault : MmTask → ℕ → Mm → Fault
  unfolding page_in_image
  demand_fault t va s =
      let (pa, s1) = get_free_page d s in
      if pa == 0
      then killed (record s1 { nr_oom = s1.nr_oom + 1 })
      else let s2 : Mm = record s1 { nr_demand_pages = s1.nr_demand_pages + 1 } in
        let s3 = if leb window_base va && ltb va prog_end then page_in_image t va pa s2 else s2 in
        repaired (map_user_page t.pg_dir va (user_pte pa) s3)

  -- `present` and `write` are the bits of the error code.
  unfoldable pub do_no_page : Bool → Bool → MmTask → ℕ → Mm → Fault
  unfolding swap_fault demand_fault
  do_no_page present write t address s0 =
      let s : Mm = record s0 { nr_page_faults = s0.nr_page_faults + 1 } in
      let dir = t.pg_dir in
      let va = address / page_size * page_size in
      let pte = pt_get s dir (pte_index va) in
      if present
      then (if write
            && not (dir == 0)
            && has_slot s dir address
            && (pt_get s dir (pte_index address)).cow
          then cow_done (un_wp_page d dir address s)
          else killed s)
      else if not (not (dir == 0) && user_addr_ok address 1)
      then killed s
      else if has_slot s dir va && pte.swapped && not pte.present
      then swap_fault d dir va pte.base s
      else demand_fault t va s
