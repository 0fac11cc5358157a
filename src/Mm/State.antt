-- ===== src/Mm/State.antt =====
-- What mm/memory.c keeps: the frame map, the swap map, the user page tables, and the contents of
-- frames and swap slots. A page directory is named by its physical address; its kernel entries are
-- the same for all and are left out, so `dirs` holds what its one user entry leads to.
use linux.Base.{ℕ, ◌-◌, ◌*◌, ◌/◌, Bool, true, false, Option, none, some, List, get_or, set, update}

-- A page table entry by its bits. `base` is the upper twenty: the page frame's number, or the slot
-- on the swap device.
pub record Pte : Type 0 where
  pub present : Bool
  pub rw : Bool
  pub user : Bool
  pub accessed : Bool
  pub dirty : Bool
  pub cow : Bool
  pub swapped : Bool
  pub base : ℕ

abbrev pub no_pte : Pte
no_pte = record {
  present = false;
  rw = false;
  user = false;
  accessed = false;
  dirty = false;
  cow = false;
  swapped = false;
  base = 0;
}

abbrev pub page_size : ℕ
page_size = 4096

-- pa | PTE_PRESENT | PTE_RW | PTE_USER
abbrev pub user_pte : ℕ → Pte
user_pte pa = record {
  present = true;
  rw = true;
  user = true;
  accessed = false;
  dirty = false;
  cow = false;
  swapped = false;
  base = pa / page_size;
}

-- PTE_SWAPPED | slot << 12
abbrev pub swap_pte : ℕ → Pte
swap_pte slot = record no_pte { swapped = true; base = slot }

-- pte & PT_MASK
abbrev pub frame_address : Pte → ℕ
frame_address pte = pte.base * page_size

-- The user page table of a directory: the address of its page, and its entries.
pub record Table : Type 0 where
  pub address : ℕ
  pub entries : List Pte

pub record Region : Type 0 where
  pub va : ℕ
  pub file_off : ℕ
  pub filesz : ℕ
  pub memsz : ℕ
  pub writable : Bool

-- What the reclaimer reads of a task. `page` stands for the pointer to it.
pub record MmTask : Type 0 where
  pub page : ℕ
  pub pg_dir : ℕ
  pub has_exe : Bool
  pub regions : List Region

pub record Mm : Type 0 where
  pub mem_map : List ℕ
  pub memory_end : ℕ
  pub ram : ℕ → List ℕ
  pub swap_map : List ℕ
  pub swap_dev : ℕ → List ℕ
  pub dirs : ℕ → Option Table
  pub task : ℕ → Option MmTask
  pub evict_cursor : ℕ
  pub nr_evicted : ℕ
  pub nr_unmapped : ℕ
  pub nr_swapouts : ℕ
  pub nr_swapins : ℕ
  pub nr_page_faults : ℕ
  pub nr_demand_pages : ℕ
  pub nr_cow_breaks : ℕ
  pub nr_oom : ℕ
  pub nr_page_ins : ℕ

abbrev pub low_mem : ℕ
low_mem = 0x100000

abbrev pub used : ℕ
used = 100

-- the number of entries of a page table
abbrev pub nr_ptes : ℕ
nr_ptes = 1024

abbrev pub map_nr : ℕ → ℕ
map_nr addr = (addr - low_mem) / page_size

-- The reference count of a frame.
abbrev pub frame_count : Mm → ℕ → ℕ
frame_count s i = get_or s.mem_map i 0

abbrev pub entry_of : Option Table → ℕ → Pte
entry_of none i = no_pte
entry_of (some t) i = get_or t.entries i no_pte

-- pt[i] of a directory's user table
abbrev pub pt_get : Mm → ℕ → ℕ → Pte
pt_get s dir i = entry_of (s.dirs dir) i

abbrev pub with_entry : Option Table → ℕ → Pte → Option Table
with_entry none i pte = none
with_entry (some t) i pte = some (record t { entries = set t.entries i pte })

-- pt[i] = pte
abbrev pub pt_set : Mm → ℕ → ℕ → Pte → Mm
pt_set s dir i pte = record s { dirs = update s.dirs dir (with_entry (s.dirs dir) i pte) }
