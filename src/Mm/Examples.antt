-- ===== src/Mm/Examples.antt =====
-- A small machine for mm/memory.c: three frames, one of them a page of a task in slot 1.
use linux.Base.{
  ℕ, zero, suc, ◌+◌, ◌/◌, ◌≡◌, ◌≢◌, ◌<◌, ◌≤◌, refl, ap, true, false, none, some, [], ◌∷◌, arith,
  replicate, length-replicate, get_or, ◌==◌, if◌then◌else◌,
}
use linux.Mm.State.{
  Mm, MmTask, Pte, Table, no_pte, user_pte, page_size, nr_ptes, pt_get, frame_count, used,
}
use linux.Mm.Frames.{count_free}
use linux.Mm.Frames.Counts.{Freeable}
use linux.Mm.Swap.{Disk, IsQuiet, stored, fetched, swap_out_page, swap_in_page, swap_slots_free}
use linux.Mm.Swap.Slots.{swap_roundtrip}
use linux.Mm.Reclaim.{visit, Fallback}
use linux.Mm.Reclaim.Contents.{Safe, visit-Safe}
use linux.Mm.Reclaim.Races.{InTable}
use linux.Mm.Space.{copy_page_tables}
use linux.Mm.Space.Refs.{refers, refs}
use linux.Mm.Space.Share.{SharedOrSame, Ready}
use linux.Mm.Space.Fork.{InCore, copy_page_tables_lem}

abbrev parent_dir : ℕ
parent_dir = 0x103000

abbrev child_dir : ℕ
child_dir = 0x105000

-- A drive that works and lets nobody else run.
abbrev quiet_disk : Disk
quiet_disk = record {
  write = (λ lba pa s. (true, stored lba pa s));
  read = (λ lba pa s. (true, fetched lba pa s));
}

quiet_disk-IsQuiet : IsQuiet quiet_disk
quiet_disk-IsQuiet = record { writes = λ lba pa s. refl; reads = λ lba pa s. refl }

-- Frame 2, at 0x102000.
abbrev page_pte : Pte
page_pte = user_pte 0x102000

abbrev parent_table : Table
parent_table = record { address = 0x104000; entries = page_pte ∷ replicate 1023 no_pte }

abbrev child_table : Table
child_table = record { address = 0x106000; entries = replicate 1024 no_pte }

abbrev parent : MmTask
parent = record { page = 0x200000; pg_dir = parent_dir; has_exe = false; regions = [] }

abbrev memory : Mm
memory = record {
  mem_map = 100 ∷ 0 ∷ 1 ∷ [];
  memory_end = 0x800000;
  ram = (λ f. 7 ∷ []);
  swap_map = 0 ∷ replicate 511 1;
  swap_dev = (λ k. []);
  dirs = (λ a.
      if a == parent_dir
      then some parent_table
      else if a == child_dir
      then some child_table
      else none);
  task = (λ i. if i == 1 then some parent else none);
  evict_cursor = 0;
  nr_evicted = 0;
  nr_unmapped = 0;
  nr_swapouts = 0;
  nr_swapins = 0;
  nr_page_faults = 0;
  nr_demand_pages = 0;
  nr_cow_breaks = 0;
  nr_oom = 0;
  nr_page_ins = 0;
}

memory-InTable : InTable memory parent_dir 0
memory-InTable = (parent_table, refl, omega arith)

get_or-no_ptes : (n j : ℕ) → get_or (replicate n no_pte) j no_pte ≡ no_pte
get_or-no_ptes zero j = refl
get_or-no_ptes (suc n) zero = refl
get_or-no_ptes (suc n) (suc j) = get_or-no_ptes n j

memory-Ready : (apart : parent_dir ≢ child_dir) → Ready parent_dir child_dir apart memory
memory-Ready apart = (
  (parent_table, refl, ap suc (length-replicate {A = Pte} 1023 no_pte)),
  (child_table, refl, length-replicate {A = Pte} 1024 no_pte),
)

apart_example : parent_dir ≢ child_dir
apart_example e = absurd (omega arith)

memory-InCore : (j : ℕ) → j < nr_ptes → InCore parent_dir child_dir apart_example memory j
memory-InCore zero h = (λ e. refl, λ e. omega arith)
memory-InCore (suc j) h =
    let q : get_or (replicate 1023 no_pte) j no_pte ≡ no_pte = get_or-no_ptes 1023 j in
    (λ e. ap (λ (p : Pte). p.swapped) q, λ e. cc)

refs_none :
    (get : ℕ → Pte) (i n m : ℕ) → ((j : ℕ) → i ≤ j → (get j).present ≡ false) → refs get i n m ≡ 0
unfolding refs
refs_none get i zero m h = refl
refs_none get i (suc n) m h =
    let rest = refs_none get (i + 1) n m (λ j l. h j (omega arith)) in
    rw (h i (omega arith)) (omega (arith, rest))

refs_first :
    (get : ℕ → Pte) (n m : ℕ)
    → ((j : ℕ) → 1 ≤ j → (get j).present ≡ false)
    → refs get 0 (suc n) m ≡ refers (get 0) m
unfolding refs
refs_first get n m h = omega (arith, refs_none get 1 n m h)

absent_above : (j : ℕ) → 1 ≤ j → (pt_get memory parent_dir j).present ≡ false
absent_above zero h = absurd (omega arith)
absent_above (suc j) h = ap (λ (p : Pte). p.present) (get_or-no_ptes 1023 j)

memory-room :
    (m : ℕ) → frame_count memory m + refs (λ j. pt_get memory parent_dir j) 0 nr_ptes m ≤ used
memory-room m =
    let r = refs_first (λ j. pt_get memory parent_dir j) 1023 m absent_above in rw r (small m)
  where
    small : (m : ℕ) → frame_count memory m + refers page_pte m ≤ used
    small zero = omega arith
    small (suc zero) = omega arith
    small (suc (suc zero)) = omega arith
    small (suc (suc (suc m))) = ground arith

copy_page_tables_lem_example :
    (k : ℕ) × (s' : Mm) × (copy_page_tables quiet_disk parent_dir child_dir memory ≡ (some k, s'))
    × ((j : ℕ)
        → j < nr_ptes
        → SharedOrSame
            (pt_get memory parent_dir j)
            (pt_get memory parent_dir j)
            (pt_get s' parent_dir j)
          × SharedOrSame
              (pt_get memory parent_dir j)
              (pt_get memory child_dir j)
              (pt_get s' child_dir j))
    × ((m : ℕ)
        → frame_count s' m
          ≡ frame_count memory m + refs (λ j. pt_get memory parent_dir j) 0 nr_ptes m)
    × (s'.ram ≡ memory.ram)
copy_page_tables_lem_example =
    copy_page_tables_lem parent_dir child_dir apart_example quiet_disk memory
      (memory-Ready apart_example) memory-InCore memory-room

slots_example : swap_slots_free memory ≢ 0
unfolding swap_slots_free count_free
slots_example e = absurd (omega arith)

swap_roundtrip_example :
    (slot : ℕ) × (s' : Mm) × (s'' : Mm) × (swap_out_page quiet_disk 0x102000 memory
      ≡ (some slot, s'))
    × (swap_in_page quiet_disk slot 0x101000 s' ≡ (true, s''))
    × (s''.ram (0x101000 / page_size) ≡ memory.ram (0x102000 / page_size))
    × (get_or memory.swap_map slot 0 ≡ 0)
    × (get_or s''.swap_map slot 0 ≡ 1)
    × ((k : ℕ) → slot ≢ k → s''.swap_dev k ≡ memory.swap_dev k)
swap_roundtrip_example =
    swap_roundtrip quiet_disk memory 0x102000 0x101000 quiet_disk-IsQuiet
      (ap suc (length-replicate {A = ℕ} 511 1)) slots_example

visit-Safe_example : Safe 0 parent 0 memory (visit quiet_disk 0 2 0 1 parent 0 memory none)
visit-Safe_example =
    visit-Safe quiet_disk quiet_disk-IsQuiet 0 2 0 1 parent 0 memory none memory-InTable

memory-Freeable : Freeable 2 memory
memory-Freeable = record {
  in_map = omega arith;
  below_end = omega arith;
  held = omega arith;
  unreserved = omega arith;
}

abbrev shared_mapping : Fallback
shared_mapping = record { dir = parent_dir; index = 0 }
