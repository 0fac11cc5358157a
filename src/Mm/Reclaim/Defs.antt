-- ===== src/Mm/Reclaim/Defs.antt =====
-- What the clock of try_to_free_page() does at one page table entry. The TLB flush and the trace
-- messages are left out.
use linux.Base.{
  ℕ, ◌+◌, ◌*◌, ◌/◌, ◌%◌, Bool, true, false, not, ◌&&◌, ◌||◌, Option, none, some, List, [], ◌∷◌, ltb,
  leb, ◌==◌, if◌then◌else◌,
}
use linux.Mm.State.{
  Mm, MmTask, Pte, Region, no_pte, swap_pte, frame_address, page_size, pt_get, pt_set,
}
use linux.Mm.Frames.{free_page}
use linux.Mm.Swap.{Disk, swap_out_page, swap_free_slot}

abbrev pub nr_tasks : ℕ
nr_tasks = 64

abbrev pub user_base : ℕ
user_base = 0x08000000

unfoldable pub in_clean_region : List Region → ℕ → Bool
in_clean_region [] va = false
in_clean_region (r ∷ rs) va =
    if ltb va r.va || leb (r.va + r.memsz) va then in_clean_region rs va else not r.writable

unfoldable pub is_clean_text : MmTask → ℕ → Bool
unfolding in_clean_region
is_clean_text t va = t.has_exe && in_clean_region t.regions va

unfoldable pub all_zero : List ℕ → Bool
all_zero [] = true
all_zero (w ∷ ws) = w == 0 && all_zero ws

unfoldable pub page_is_zero : ℕ → Mm → Bool
unfolding all_zero
page_is_zero pa s = all_zero (s.ram (pa / page_size))

-- The COW mapping that the scan falls back on: a directory and an index.
pub record Fallback : Type 0 where
  pub dir : ℕ
  pub index : ℕ

-- How the scan goes on after an entry: with the next one, or with a result of 1 or 0.
pub data Visit : Type 0 where
  going : Mm → Option Fallback → Visit
  reclaimed : Mm → Visit
  gave_up : Mm → Visit

-- The mapping is replaced, the frame released and the cursor moved past the task.
unfoldable pub evict : ℕ → ℕ → ℕ → Pte → ℕ → Mm → Mm
evict dir i n pte pa s =
    let s' = free_page pa (pt_set s dir i pte) in
    record s' {
      nr_evicted = s'.nr_evicted + 1;
      evict_cursor = (s'.evict_cursor + n + 1) % nr_tasks;
    }

abbrev pub same_bit : Bool → Bool → Bool
same_bit true b = b
same_bit false b = not b

-- pt[i] == pte_before
unfoldable pub same_pte : Pte → Pte → Bool
same_pte p q =
    same_bit p.present q.present
    && same_bit p.rw q.rw
    && same_bit p.user q.user
    && same_bit p.accessed q.accessed
    && same_bit p.dirty q.dirty
    && same_bit p.cow q.cow
    && same_bit p.swapped q.swapped
    && p.base == q.base

-- task[idx] is still `t`, with the page directory that it had
abbrev pub same_task : Option MmTask → MmTask → Bool
same_task none t = false
same_task (some u) t = u.page == t.page && u.pg_dir == t.pg_dir

-- What is done with a page once it was written out, `none` being a failed swap_out_page(). The
-- driver slept, so the entry is read again before it is trusted.
unfoldable pub swapped_out : ℕ → ℕ → MmTask → ℕ → Pte → Option Fallback → Option ℕ × Mm → Visit
unfolding same_pte evict
swapped_out n idx t i pte fb (none, s) = going s fb
swapped_out n idx t i pte fb (some slot, s) =
    if not (same_task (s.task idx) t) || not (same_pte (pt_get s t.pg_dir i) pte)
    then gave_up (swap_free_slot slot s)
    else reclaimed (evict t.pg_dir i n (swap_pte slot) (frame_address pte) s)

module _ (d : Disk) where
  -- The body of the innermost loop, at entry `i` of the task in slot `idx`.
  unfoldable pub visit : ℕ → ℕ → ℕ → ℕ → MmTask → ℕ → Mm → Option Fallback → Visit
  unfolding evict swapped_out is_clean_text page_is_zero
  visit round pass n idx t i s fb =
      let pte = pt_get s t.pg_dir i in
      let pa = frame_address pte in
      if not pte.present || not pte.user
      then going s fb
      else if round == 0 && pte.accessed
      then going (pt_set s t.pg_dir i (record pte { accessed = false })) fb
      else if pass == 0 && not pte.cow && page_is_zero pa s
      then reclaimed (evict t.pg_dir i n no_pte pa s)
      else if pass == 1 && not pte.cow && is_clean_text t (user_base + i * page_size)
      then reclaimed (evict t.pg_dir i n no_pte pa s)
      else if pass == 2 && not pte.cow
      then swapped_out n idx t i pte fb (swap_out_page d pa s)
      else if pte.cow
      then (elim fb [
        | none ↦ going s (some (record { dir = t.pg_dir; index = i }))
        | some f ↦ going s (some f)
      ])
      else going s fb
