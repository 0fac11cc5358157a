-- ===== src/Mm/Space/Examples.antt =====
-- Page faults on a machine with four frames.
use linux.Base.{
  ℕ, ◌+◌, ◌*◌, ◌/◌, ◌≡◌, ◌≢◌, ◌↔◌, refl, ap, true, false, none, some, [], ◌∷◌, arith, replicate,
  length-replicate, ◌==◌, if◌then◌else◌,
}
use linux.Mm.State.{Mm, MmTask, Pte, Table, no_pte, swap_pte, user_pte, page_size}
use linux.Mm.Frames.{count_free_pages, count_free}
use linux.Mm.Frames.Counts.{Freeable}
use linux.Mm.Swap.{Disk, IsQuiet, stored, fetched}
use linux.Mm.Space.Defs.{user_addr_ok, pte_index}
use linux.Mm.Space.Fault.{ReadExe, do_no_page, repaired}
use linux.Mm.Space.Refs.{Whole}
use linux.Mm.Space.Unshare.{Unshared, do_no_page-cow}
use linux.Mm.Space.SwapIn.{BroughtIn, do_no_page-swapped}
use linux.Mm.Space.Window.{InRegion, user_addr_ok_lem}

abbrev quiet_disk : Disk
quiet_disk = record {
  write = (λ lba pa s. (true, stored lba pa s));
  read = (λ lba pa s. (true, fetched lba pa s));
}

quiet_disk-IsQuiet : IsQuiet quiet_disk
quiet_disk-IsQuiet = record { writes = λ lba pa s. refl; reads = λ lba pa s. refl }

-- A file system that reads nothing.
abbrev no_file : ReadExe
no_file t offset pa n s = (0, s)

abbrev dir : ℕ
dir = 0x103000

-- Page 0 is shared, in frame 2; page 1 is in slot 5.
abbrev cow_pte : Pte
cow_pte = record (user_pte 0x102000) { rw = false; cow = true }

abbrev table : Table
table = record { address = 0x104000; entries = cow_pte ∷ swap_pte 5 ∷ replicate 1022 no_pte }

abbrev task : MmTask
task = record { page = 0x200000; pg_dir = dir; has_exe = false; regions = [] }

abbrev memory : Mm
memory = record {
  mem_map = 100 ∷ 0 ∷ 2 ∷ 0 ∷ [];
  memory_end = 0x800000;
  ram = (λ f. 7 ∷ []);
  swap_map = replicate 512 1;
  swap_dev = (λ k. k ∷ []);
  dirs = (λ a. if a == dir then some table else none);
  task = (λ i. if i == 1 then some task else none);
  evict_cursor = 0;
  nr_evicted = 0;
  nr_unmapped = 0;
  nr_swapouts = 0;
  nr_swapins = 0;
  nr_page_faults = 0;
  nr_demand_pages = 0;
  nr_cow_breaks = 0;
  nr_oom = 0;
  nr_page_ins = 0;
}

memory-Whole : Whole memory dir
memory-Whole = (table, refl, ap (λ n. 2 + n) (length-replicate {A = Pte} 1022 no_pte))

memory-Freeable : Freeable 2 memory
memory-Freeable = record {
  in_map = omega arith;
  below_end = omega arith;
  held = omega arith;
  unreserved = omega arith;
}

frames_left : count_free_pages memory ≢ 0
unfolding count_free_pages count_free
frames_left e = absurd (omega arith)

do_no_page-cow_example :
    (k : ℕ) × (s' : Mm) × (do_no_page quiet_disk no_file true true task 0x08000010 memory
      ≡ repaired s')
    × Unshared dir (pte_index 0x08000010) 2 memory k s'
do_no_page-cow_example =
    do_no_page-cow quiet_disk no_file task 0x08000010 2 memory (λ e. absurd (omega arith))
      (omega arith) memory-Whole refl refl (omega arith) memory-Freeable frames_left

accessible : user_addr_ok 0x08001010 1 ≡ true
unfolding user_addr_ok
accessible = refl

do_no_page-swapped_example :
    (k : ℕ) × (s' : Mm) × (do_no_page quiet_disk no_file false true task 0x08001010 memory
      ≡ repaired s')
    × BroughtIn dir (pte_index (0x08001010 / page_size * page_size)) 5 memory k s'
do_no_page-swapped_example =
    do_no_page-swapped quiet_disk no_file true task 0x08001010 5 memory quiet_disk-IsQuiet
      (λ e. absurd (omega arith)) accessible memory-Whole refl refl refl (omega arith)
      (length-replicate {A = ℕ} 512 1) frames_left

user_addr_ok_lem_example :
    (user_addr_ok 0x080ff000 4096 ≡ true) ↔ InRegion 0x080ff000 (0x080ff000 + 4096)
user_addr_ok_lem_example = user_addr_ok_lem 0x080ff000 4096 (omega arith) (omega arith)
