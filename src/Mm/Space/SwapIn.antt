-- ===== src/Mm/Space/SwapIn.antt =====
-- A page fault on a page that was swapped out brings it back.
use linux.Base.{
  ℕ, ◌+◌, ◌*◌, ◌/◌, ◌<◌, ◌≡◌, ◌≢◌, refl, Bool, true, false, not, ◌&&◌, arith, ltb, ◌==◌, length,
  get_or, set, update, update_self, get_or-set_self,
}
use linux.Mm.State.{Mm, MmTask, user_pte, page_size, low_mem, pt_get, pt_set, frame_count}
use linux.Mm.Frames.{zero_page, take_frame, count_free_pages}
use linux.Mm.Frames.Counts.{Handed}
use linux.Mm.Swap.{Disk, IsQuiet, swap_free_slot, nr_swap_slots}
use linux.Mm.Swap.Slots.{swap_in_quiet, read_back}
use linux.Mm.Space.Defs.{user_addr_ok, has_slot, pte_index, map_user_page}
use linux.Mm.Space.Alloc.{get_free_page}
use linux.Mm.Space.Fault.{ReadExe, repaired, swap_fault, do_no_page}
use linux.Mm.Space.Refs.{Whole, pt_get-set_self, pt_get-set_ne}
use linux.Mm.Space.Grant.{get_free_page-free, InWindow, has_slot-Whole, new_page}

page_of-InWindow :
    (address : ℕ) → user_addr_ok address 1 ≡ true → InWindow (address / page_size * page_size)
unfolding user_addr_ok
page_of-InWindow address h = ground arith

-- What a fault leaves of a page that was on the swap device.
pub record BroughtIn (dir j slot : ℕ) (s : Mm) (k : ℕ) (s' : Mm) : Type 0 where
  pub fresh : frame_count s k ≡ 0
  pub counted : frame_count s' k ≡ 1
  pub entry : pt_get s' dir j ≡ user_pte (low_mem + k * page_size)
  pub others : (l : ℕ) → j ≢ l → pt_get s' dir l ≡ pt_get s dir l
  pub contents : s'.ram ((low_mem + k * page_size) / page_size) ≡ s.swap_dev slot
  pub released : get_or s'.swap_map slot 0 ≡ 0

module _ (d : Disk) (q : IsQuiet d) (dir va slot k : ℕ) (s : Mm) where
  abbrev read_in : Mm
  read_in = read_back slot (new_page k) (take_frame k s).1

  abbrev unslotted : Mm
  unslotted = record read_in { swap_map = set read_in.swap_map slot 0 }

  abbrev back : Mm
  back = pt_set unslotted dir (pte_index va) (user_pte (new_page k))

  swap_fault-back :
      get_free_page d s ≡ take_frame k s
      → InWindow va
      → Whole s dir
      → slot < nr_swap_slots
      → swap_fault d dir va slot s ≡ repaired back
  unfolding swap_fault take_frame map_user_page swap_free_slot
  swap_fault-back e w whole l =
      let z : new_page k == 0 ≡ false = ground arith in
      let b : ltb slot nr_swap_slots ≡ true = ground arith in
      let h : has_slot s dir va ≡ true = has_slot-Whole s dir va w whole in
      rw (e, z, swap_in_quiet d (take_frame k s).1 (new_page k) slot q l, b, h) refl

  back-BroughtIn :
      Handed k s (take_frame k s).0 (take_frame k s).1
      → Whole s dir
      → slot < length s.swap_map
      → BroughtIn dir (pte_index va) slot s k back
  unfolding take_frame
  back-BroughtIn h whole l = record {
    fresh = h.was_free;
    counted = h.counted;
    entry = pt_get-set_self s dir (pte_index va) (user_pte (new_page k)) whole (omega arith);
    others = λ m r. pt_get-set_ne s dir dir (pte_index va) m (user_pte (new_page k)) r;
    contents =
        update_self (update s.ram (new_page k / page_size) zero_page) (new_page k / page_size)
          (s.swap_dev slot);
    released = get_or-set_self s.swap_map slot 0 0 l;
  }

module _ (d : Disk) (file_read : ReadExe) where
  -- On a quiet disk, an access to an address that a user may touch, whose page is on the swap device,
  -- while a frame is free: the fault is repaired. The entry then names a frame that was free, with
  -- the contents of the slot; the slot is free again, and no other entry of the table changes.
  pub do_no_page-swapped :
      (write : Bool) (t : MmTask) (address slot : ℕ) (s : Mm)
      → IsQuiet d
      → t.pg_dir ≢ 0
      → user_addr_ok address 1 ≡ true
      → Whole s t.pg_dir
      → let pte = pt_get s t.pg_dir (pte_index (address / page_size * page_size)) in
        (pte.present ≡ false)
        → pte.swapped ≡ true
        → pte.base ≡ slot
        → slot < nr_swap_slots
        → length s.swap_map ≡ nr_swap_slots
        → count_free_pages s ≢ 0
        → (k : ℕ) × (s' : Mm) × (do_no_page d file_read false write t address s ≡ repaired s')
          × BroughtIn t.pg_dir (pte_index (address / page_size * page_size)) slot s k s'
  unfolding do_no_page count_free_pages
  do_no_page-swapped write t address slot s q n a whole p sw b l ls free =
      let u : Mm = record s { nr_page_faults = s.nr_page_faults + 1 } in
      let va = address / page_size * page_size in
      let pte = pt_get s t.pg_dir (pte_index va) in
      let w = page_of-InWindow address a in
      let g = get_free_page-free d u free in
      let guard : not (not (t.pg_dir == 0) && user_addr_ok address 1) ≡ false =
        ground (arith, n, a) in
      let slotted : has_slot u t.pg_dir va && pte.swapped && not pte.present ≡ true =
        ground (arith, has_slot-Whole u t.pg_dir va w whole, sw, p) in
      let m = swap_fault-back d q t.pg_dir va slot g.0 u g.1 w whole l in
      let r = back-BroughtIn d q t.pg_dir va slot g.0 u g.2 whole (omega (arith, l, ls)) in
      (
        g.0,
        back d q t.pg_dir va slot g.0 u,
        rw (guard, slotted, b) m,
        record {
          fresh = r.fresh;
          counted = r.counted;
          entry = r.entry;
          others = r.others;
          contents = r.contents;
          released = r.released;
        },
      )
