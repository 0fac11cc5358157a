-- ===== src/Fs/Descriptors/Defs.antt =====
-- current->filp[] and the open files it points into. A file is named by its place in file_table[].
-- `released` lists the files whose inode was handed to iput(), the last one first.
use linux.Base.{
  ℕ, zero, suc, ◌+◌, ◌-◌, ◌%◌, ◌^◌, Bool, ◌&&◌, Option, none, some, List, ◌∷◌, leb, ◌==◌,
  if◌then◌else◌, update,
}

abbrev pub nr_open : ℕ
nr_open = 64

-- `has_inode` is false for the console and the devices.
pub record File : Type 0 where
  pub f_count : ℕ
  pub has_inode : Bool

pub record Descriptors : Type 0 where
  pub filp : ℕ → Option ℕ
  pub file_table : ℕ → File
  pub released : List ℕ

-- filp[fd], or nothing beyond the table
abbrev pub opened : ℕ → Descriptors → Option ℕ
opened fd s = if leb nr_open fd then none else s.filp fd

-- f->f_count--, and iput() at 0
unfoldable pub drop_file : ℕ → Descriptors → Descriptors
drop_file f s =
    let n = ((s.file_table f).f_count + 2 ^ 16 - 1) % 2 ^ 16 in
    record s {
      file_table = update s.file_table f (record (s.file_table f) { f_count = n });
      released = if n == 0 && (s.file_table f).has_inode then f ∷ s.released else s.released;
    }

-- filp[fd] = f, and f_count++
unfoldable pub share_file : ℕ → ℕ → Descriptors → Descriptors
share_file fd f s = record s {
  filp = update s.filp fd (some f);
  file_table =
      update s.file_table f
        (record (s.file_table f) { f_count = ((s.file_table f).f_count + 1) % 2 ^ 16 });
}

abbrev pub clear : ℕ → Descriptors → Descriptors
clear fd s = record s { filp = update s.filp fd none }

-- The result -1 is `none`.
unfoldable pub sys_close : ℕ → Descriptors → Option Descriptors
unfolding drop_file
sys_close fd s = elim (opened fd s) [ none ↦ none | some f ↦ some (drop_file f (clear fd s)) ]

-- The first free descriptor from `i` on, `n` rounds being left.
unfoldable pub free_fd : ℕ → ℕ → (ℕ → Option ℕ) → Option ℕ
free_fd zero i filp = none
free_fd (suc n) i filp = elim (filp i) [ none ↦ some i | some f ↦ free_fd n (i + 1) filp ]

unfoldable pub sys_dup : ℕ → Descriptors → Option (ℕ × Descriptors)
unfolding free_fd share_file
sys_dup fildes s = elim (opened fildes s) [
  | none ↦ none
  | some f ↦ elim (free_fd nr_open 0 s.filp) [
    | none ↦ none
    | some fd ↦ some (fd, share_file fd f s)
  ]
]

-- sys_fcntl() with F_DUPFD
unfoldable pub dupfd : ℕ → ℕ → Descriptors → Option (ℕ × Descriptors)
unfolding free_fd share_file
dupfd fildes arg s = elim (opened fildes s) [
  | none ↦ none
  | some f ↦ if leb nr_open arg then none else elim (free_fd (nr_open - arg) arg s.filp) [
    | none ↦ none
    | some fd ↦ some (fd, share_file fd f s)
  ]
]

-- The target's file is dropped before the source is shared.
unfoldable pub drop_target : ℕ → Descriptors → Descriptors
unfolding drop_file
drop_target fd s = elim (s.filp fd) [ none ↦ s | some f ↦ drop_file f s ]

unfoldable pub sys_dup2 : ℕ → ℕ → Descriptors → Option (ℕ × Descriptors)
unfolding drop_target share_file
sys_dup2 oldfd newfd s = elim (opened oldfd s) [
  | none ↦ none
  | some f ↦
      if leb nr_open newfd
      then none
      else if oldfd == newfd
      then some (newfd, s)
      else some (newfd, share_file newfd f (drop_target newfd s))
]
