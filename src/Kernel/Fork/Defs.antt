-- ===== src/Kernel/Fork/Defs.antt =====
-- What get_free_page() and the address space calls give is an argument of the call. The kernel stack
-- and the registers of the child, and the arrays beside task[], are left out.
use linux.Base.{
  ℕ, zero, suc, ◌+◌, ◌%◌, ◌^◌, Bool, true, false, not, ◌&&◌, Option, none, some, List, ◌∷◌, ◌==◌,
  if◌then◌else◌, update,
}
use linux.Kernel.Task.{nr_tasks}
use linux.Fs.Descriptors.{nr_open}

-- What a task shares: inodes, open files, its page directory.
pub record Process : Type 0 where
  pub pwd : Option ℕ
  pub root : Option ℕ
  pub exe_inode : Option ℕ
  pub filp : ℕ → Option ℕ
  pub pg_dir : ℕ
  pub pid : ℕ
  pub parent : ℕ

-- task[], i_count of inodes and f_count of open files, and the page directories and pages that have
-- been given back.
pub record World : Type 0 where
  pub table : ℕ → Option Process
  pub i_count : ℕ → ℕ
  pub f_count : ℕ → ℕ
  pub freed_dirs : List ℕ
  pub freed_pages : List ℕ

-- What alloc_user_pgdir() and copy_page_tables() give: no directory, one that could not be filled, or
-- a copy.
pub data Space : Type 0 where
  no_dir : Space
  not_copied : ℕ → Space
  copied : ℕ → Space

abbrev pub is_free : Option Process → Bool
is_free none = true
is_free (some p) = false

-- The first free slot of `n` from slot `i`.
unfoldable pub free_slot : ℕ → ℕ → (ℕ → Option Process) → Option ℕ
free_slot zero i table = none
free_slot (suc n) i table =
    let rest = free_slot n (suc i) table in if is_free (table i) then some i else rest

-- i_count++ and i_count--, in one byte
abbrev pub hold_inode : Option ℕ → (ℕ → ℕ) → ℕ → ℕ
hold_inode none counts = counts
hold_inode (some ino) counts = update counts ino ((counts ino + 1) % 256)

abbrev pub drop_inode : Option ℕ → (ℕ → ℕ) → ℕ → ℕ
drop_inode none counts = counts
drop_inode (some ino) counts = update counts ino ((counts ino + 255) % 256)

-- f_count++, in 16 bits
abbrev pub hold_file : Option ℕ → (ℕ → ℕ) → ℕ → ℕ
hold_file none counts = counts
hold_file (some f) counts = update counts f ((counts f + 1) % 2 ^ 16)

-- The loop over the first `n` descriptors.
unfoldable pub hold_files : ℕ → (ℕ → Option ℕ) → (ℕ → ℕ) → ℕ → ℕ
hold_files zero filp counts = counts
hold_files (suc n) filp counts = hold_file (filp n) (hold_files n filp counts)

-- The child has its slot and shares what the parent has.
unfoldable pub share : ℕ → ℕ → Process → World → Process × World
unfolding hold_files
share me nr p w =
    let child : Process = record p { parent = me; pid = nr } in
    (
      child,
      record w {
        table = update w.table nr (some child);
        i_count = hold_inode p.exe_inode (hold_inode p.root (hold_inode p.pwd w.i_count));
        f_count = hold_files nr_open p.filp w.f_count;
      },
    )

-- The label fail.
unfoldable pub give_up : ℕ → ℕ → Process → World → World
give_up page nr child w = record w {
  table = update w.table nr none;
  i_count = drop_inode child.root (drop_inode child.pwd w.i_count);
  freed_dirs = (if child.pg_dir == 0 then w.freed_dirs else child.pg_dir ∷ w.freed_dirs);
  freed_pages = page ∷ w.freed_pages;
}

abbrev pub with_pg_dir : ℕ → ℕ → Process → World → World
with_pg_dir nr dir child w = record w {
  table = update w.table nr (some (record child { pg_dir = dir }));
}

-- The child's page directory; a caller in ring 0 leaves it the kernel's.
unfoldable pub address_space : Bool → Space → ℕ → ℕ → Process → World → Option ℕ × World
unfolding give_up
address_space ring3 no_dir page nr child w =
    if not (child.pg_dir == 0) && ring3
    then (none, give_up page nr (record child { pg_dir = 0 }) w)
    else (some nr, with_pg_dir nr 0 child w)
address_space ring3 (not_copied dir) page nr child w =
    if not (child.pg_dir == 0) && ring3
    then (
      none,
      give_up page nr (record child { pg_dir = 0 }) (record w { freed_dirs = dir ∷ w.freed_dirs }),
    )
    else (some nr, with_pg_dir nr 0 child w)
address_space ring3 (copied dir) page nr child w =
    if not (child.pg_dir == 0) && ring3
    then (some nr, with_pg_dir nr dir child w)
    else (some nr, with_pg_dir nr 0 child w)

-- From the copy of the parent on; `fits` is whether the parent's live kernel stack fits the page.
unfoldable pub fork_into : Bool → Bool → Space → ℕ → ℕ → ℕ → Process → World → Option ℕ × World
unfolding share give_up address_space
fork_into fits ring3 space page me nr p w =
    let (child, w') = share me nr p w in
    if fits then address_space ring3 space page nr child w' else (none, give_up page nr child w')

abbrev pub with_slot : Option ℕ → ℕ → World → (ℕ → Option ℕ × World) → Option ℕ × World
with_slot none page w go = (none, record w { freed_pages = page ∷ w.freed_pages })
with_slot (some nr) page w go = go nr

-- sys_fork() of the task in slot `me`: the child's pid, or `none` for -1. Slot 0 is never free.
unfoldable pub sys_fork : Option ℕ → Bool → Bool → Space → ℕ → Process → World → Option ℕ × World
unfolding free_slot fork_into
sys_fork none fits ring3 space me p w = (none, w)
sys_fork (some page) fits ring3 space me p w =
    with_slot (free_slot nr_tasks 0 w.table) page w
      (λ nr. fork_into fits ring3 space page me nr p w)
