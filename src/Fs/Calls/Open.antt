-- ===== src/Fs/Calls/Open.antt =====
-- sys_open() (kernel/sys.c) of a name that is no device, from its namei() on: `slot` is whether
-- file_table[] has a free entry.
use linux.Base.{
  ℕ, Bool, true, false, not, ◌&&◌, ◌||◌, Option, none, some, List, [], ◌∷◌, if◌then◌else◌, Word,
  bit, any_bit, no_bits, ◌|||◌, ◌&&&◌, complement,
}
use linux.Kernel.Task.{Task}
use linux.Fs.Directory.{Entries, find, dir_add_entry}
use linux.Fs.Permission.{permission}
use linux.Fs.Namei.{Node, is_dir}
use linux.Fs.Calls.Defs.{
  CallState, Answer, set_node, take_node, iput, fail, at_path, bits_from, word_of, may_write,
  may_read,
}
use linux.Fs.Calls.Entries.{in_parent, nothing, new_node, undo, owned}

-- O_CREAT and O_TRUNC
abbrev pub o_creat : ℕ
o_creat = 6

abbrev pub o_trunc : ℕ
o_trunc = 9

-- (flag & 3) == O_RDONLY
abbrev pub reads_only : Word → Bool
reads_only flag = not (flag 0) && not (flag 1)

-- (flag & 3) == O_WRONLY or O_RDWR
abbrev pub asks_writing : Word → Bool
asks_writing flag = (flag 0 && not (flag 1)) || (not (flag 0) && flag 1)

-- The mask that permission() is asked for.
abbrev pub open_mask : Word → Word
open_mask flag =
    (if reads_only flag then may_read else no_bits)
    ||| (if asks_writing flag || flag o_trunc then may_write else no_bits)

abbrev pub truncated : Word → ℕ → Node → CallState → CallState
truncated flag nr n w =
    if flag o_trunc && not (is_dir n) then record w { emptied = nr ∷ w.emptied } else w

-- From the test of the permission on: f_mode is the whole flag.
abbrev pub open_checked : Task → Word → Bool → ℕ → Node → CallState → Answer
open_checked t flag slot nr n w =
    if any_bit 32 (open_mask flag) && not (permission t n.inode (open_mask flag))
    then fail nr w
    else if not slot
    then fail nr w
    else (true, record (truncated flag nr n w) { files = (nr, flag) ∷ w.files })

-- ((mode & 0777 & ~umask) | 0x8000
abbrev pub file_mode : Task → Word → Word
file_mode t mode = (mode &&& bits_from 0 9 &&& complement (word_of t.umask)) ||| bit 15

abbrev pub new_file : Task → Word → Node → Node
new_file t mode dir = record { inode = owned t (file_mode t mode) (dir.inode.dev) 1; entries = [] }

abbrev pub created : Task → Word → Word → Bool → ℕ → ℕ → Node → CallState → Option Entries → Answer
created t flag mode slot ino nr dir w none = undo ino nr (set_node ino (new_file t mode dir) w)
created t flag mode slot ino nr dir w (some es) =
    open_checked t flag slot ino (new_file t mode dir)
      (iput nr (set_node ino (new_file t mode dir) (set_node nr (record dir { entries = es }) w)))

abbrev pub create_at :
    Task → Word → Word → Option ℕ → Bool → Bool → List ℕ → ℕ → Node → CallState → Answer
create_at t flag mode fresh room slot name nr dir w = elim (find dir.entries name) [
  | some ino ↦ elim (w.nodes ino) [
    | none ↦ fail nr w
    | some n ↦ open_checked t flag slot ino n (iput nr (take_node ino w))
  ]
  | none ↦ elim fresh [
    | none ↦ fail nr w
    | some ino ↦
        created t flag mode slot ino nr dir (new_node ino (dir.inode.dev) w)
          (dir_add_entry name ino room dir.entries)
  ]
]

abbrev pub not_found : Task → List ℕ → Word → Word → Option ℕ → Bool → Bool → CallState → Answer
not_found t path flag mode fresh room slot w =
    if flag o_creat
    then in_parent t path nothing (create_at t flag mode fresh room slot) w
    else (false, w)

unfoldable pub sys_open : Task → List ℕ → Word → Word → Option ℕ → Bool → Bool → CallState → Answer
sys_open t path flag mode fresh room slot w =
    at_path t path w (not_found t path flag mode fresh room slot) (open_checked t flag slot)
