-- ===== src/Mm/Reclaim/Scan.antt =====
-- The loops of try_to_free_page() round the visit of one entry.
use linux.Base.{
  ℕ, zero, suc, ◌+◌, ◌%◌, Bool, true, false, ◌||◌, Option, none, some, ◌==◌, if◌then◌else◌,
}
use linux.Mm.State.{Mm, MmTask, no_pte, nr_ptes, pt_set}
use linux.Mm.Swap.{Disk}
use linux.Mm.Reclaim.Defs.{Visit, going, reclaimed, gave_up, Fallback, visit, nr_tasks}

abbrev pub kernel_pg_dir : ℕ
kernel_pg_dir = 0x100000

-- Goes on with `rest` unless the scan has ended.
abbrev pub and_then : Visit → (Mm → Option Fallback → Visit) → Visit
and_then (going s fb) rest = rest s fb
and_then (reclaimed s) rest = reclaimed s
and_then (gave_up s) rest = gave_up s

-- The fallback mapping is dropped, and its frame's count stays as it is.
unfoldable pub drop_mapping : Fallback → Mm → Mm
drop_mapping f s =
    let s' = pt_set s f.dir f.index no_pte in record s' { nr_unmapped = s'.nr_unmapped + 1 }

-- The end of try_to_free_page(), with its result.
unfoldable pub conclude : Visit → Bool × Mm
unfolding drop_mapping
conclude (going s none) = (false, s)
conclude (going s (some f)) = (true, drop_mapping f s)
conclude (reclaimed s) = (true, s)
conclude (gave_up s) = (false, s)

module _ (d : Disk) where
  -- for (i = 0; i < 1024; i++), `k` rounds being left
  unfoldable pub scan_entries : ℕ → ℕ → ℕ → ℕ → ℕ → MmTask → ℕ → Mm → Option Fallback → Visit
  scan_entries zero round pass n idx t i s fb = going s fb
  scan_entries (suc k) round pass n idx t i s fb =
      and_then (visit d round pass n idx t i s fb) (scan_entries k round pass n idx t (i + 1))

  -- Does the task have a user page table to scan?
  abbrev pub scannable : Option MmTask → Mm → Option MmTask
  scannable none s = none
  scannable (some t) s =
      if t.pg_dir == 0 || t.pg_dir == kernel_pg_dir
      then none
      else (elim (s.dirs t.pg_dir) [ none ↦ none | some table ↦ some t ])

  unfoldable pub scan_task : ℕ → ℕ → ℕ → Mm → Option Fallback → Visit
  unfolding scan_entries
  scan_task round pass n s fb =
      let idx = (s.evict_cursor + n) % nr_tasks in
      elim (scannable (s.task idx) s) [
        | none ↦ going s fb
        | some t ↦ scan_entries nr_ptes round pass n idx t 0 s fb
      ]

  -- for (n = 0; n < NR_TASKS; n++)
  unfoldable pub scan_tasks : ℕ → ℕ → ℕ → ℕ → Mm → Option Fallback → Visit
  unfolding scan_task
  scan_tasks zero round pass n s fb = going s fb
  scan_tasks (suc k) round pass n s fb =
      and_then (scan_task round pass n s fb) (scan_tasks k round pass (n + 1))

  -- for (pass = 0; pass < 3; pass++)
  unfoldable pub scan_passes : ℕ → ℕ → ℕ → Mm → Option Fallback → Visit
  unfolding scan_tasks
  scan_passes zero round pass s fb = going s fb
  scan_passes (suc k) round pass s fb =
      and_then (scan_tasks nr_tasks round pass 0 s fb) (scan_passes k round (pass + 1))

  -- for (round = 0; round < 2; round++)
  unfoldable pub scan_rounds : ℕ → ℕ → Mm → Option Fallback → Visit
  unfolding scan_passes
  scan_rounds zero round s fb = going s fb
  scan_rounds (suc k) round s fb = and_then (scan_passes 3 round 0 s fb) (scan_rounds k (round + 1))

  unfoldable pub try_to_free_page : Mm → Bool × Mm
  unfolding scan_rounds conclude
  try_to_free_page s = conclude (scan_rounds 2 0 s none)
