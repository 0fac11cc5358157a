-- ===== src/Fs/Calls/Defs.antt =====
-- The state that the calls on names change, and the calls on one inode. No other task runs in
-- between. Each call gives whether it returned 0 or -1, and the state.
use linux.Base.{
  ℕ, ◌/◌, ◌%◌, ◌^◌, Bool, true, false, not, ◌&&◌, ◌||◌, Option, none, some, List, ◌∷◌, ltb, leb,
  ◌==◌, if◌then◌else◌, update, Word, bit, any_bit, ◌|||◌, ◌&&&◌,
}
use linux.Kernel.Task.{Task}
use linux.Fs.Permission.{permission, suser}
use linux.Fs.Namei.{
  Node, Counts, Result, found, missing, out_of_fuel, gained, put, namei, may_exec, is_dir,
}

-- The inodes that iget() can load, their i_count, and current->root and current->pwd. `freed` and
-- `emptied` list the inodes handed to free_inode() and truncate_inode(), and `files` the files that
-- sys_open() made, with f_inode and f_mode, the last one first.
pub record CallState : Type 0 where
  pub nodes : ℕ → Option Node
  pub counts : Counts
  pub root : Option ℕ
  pub pwd : Option ℕ
  pub freed : List ℕ
  pub emptied : List ℕ
  pub files : List (ℕ × Word)

abbrev pub Answer : Type 0
Answer = Bool × CallState

abbrev pub set_node : ℕ → Node → CallState → CallState
set_node nr n w = record w { nodes = update w.nodes nr (some n) }

abbrev pub free_node : ℕ → CallState → CallState
free_node nr w = record w { freed = nr ∷ w.freed }

abbrev pub take_node : ℕ → CallState → CallState
take_node nr w = record w { counts = gained w.counts nr }

abbrev pub links_of : Option Node → ℕ
links_of none = 1
links_of (some n) = n.inode.nlinks

-- iput() of an inode that is no pipe
unfoldable pub iput : ℕ → CallState → CallState
iput nr w =
    let w' = record w { counts = put w.counts nr } in
    if (w'.counts nr == 0) && links_of (w.nodes nr) == 0 then free_node nr w' else w'

abbrev pub fail : ℕ → CallState → Answer
fail nr w = (false, iput nr w)

-- The inode that namei() gave, or its NULL; the inode that it gives is loaded.
abbrev pub at_inode :
    Result → CallState → (CallState → Answer) → (ℕ → Node → CallState → Answer) → Answer
at_inode missing w null body = null w
at_inode out_of_fuel w null body = null w
at_inode (found nr) w null body = elim (w.nodes nr) [
  | none ↦ null (iput nr w)
  | some n ↦ body nr n w
]

unfoldable pub at_path :
    Task → List ℕ → CallState → (CallState → Answer) → (ℕ → Node → CallState → Answer) → Answer
at_path t path w null body =
    let (r, counts) = namei t w.nodes w.root w.pwd path w.counts in
    at_inode r (record w { counts = counts }) null body

abbrev pub null_fails : CallState → Answer
null_fails w = (false, w)

-- Bits `low` to `high - 1`
abbrev pub bits_from : ℕ → ℕ → Word
bits_from low high k = leb low k && ltb k high

-- A number as the set of its bits
abbrev pub word_of : ℕ → Word
word_of n k = (n / 2 ^ k) % 2 == 1

-- MAY_WRITE and MAY_READ
abbrev pub may_write : Word
may_write = bit 1

abbrev pub may_read : Word
may_read = bit 2

abbrev pub owns : Task → Node → Bool
owns t n = (t.euid == n.inode.uid) || suser t

-- (i_mode & 0xF000) | (mode & 0777)
abbrev pub new_mode : Word → Word → Word
new_mode old mode = (old &&& bits_from 12 16) ||| (mode &&& bits_from 0 9)

abbrev pub chmod_node : Task → Word → ℕ → Node → CallState → Answer
chmod_node t mode nr n w =
    if owns t n
    then (
      true,
      iput nr (
          set_node nr
            (record n { inode = record (n.inode) { mode = new_mode (n.inode.mode) mode } }) w),
    )
    else fail nr w

unfoldable pub sys_chmod : Task → List ℕ → Word → CallState → Answer
sys_chmod t path mode w = at_path t path w null_fails (chmod_node t mode)

abbrev pub chown_node : Task → ℕ → ℕ → ℕ → Node → CallState → Answer
chown_node t uid gid nr n w =
    if suser t
    then (
      true,
      iput nr (
          set_node nr
            (record n { inode = record (n.inode) { uid = uid % 2 ^ 16; gid = gid % 256 } }) w),
    )
    else fail nr w

unfoldable pub sys_chown : Task → List ℕ → ℕ → ℕ → CallState → Answer
sys_chown t path uid gid w = at_path t path w null_fails (chown_node t uid gid)

-- The mask of MAY_READ, MAY_WRITE and MAY_EXEC for R_OK, W_OK and X_OK, which have the same bits.
abbrev pub access_mask : Word → Word
access_mask mode = mode &&& bits_from 0 3

abbrev pub access_node : Task → Word → ℕ → Node → CallState → Answer
access_node t mode nr n w =
    (not (any_bit 32 (access_mask mode)) || permission t n.inode (access_mask mode), iput nr w)

unfoldable pub sys_access : Task → List ℕ → Word → CallState → Answer
sys_access t path mode w = at_path t path w null_fails (access_node t mode)

-- i_mtime is left out.
abbrev pub utime_node : Task → ℕ → Node → CallState → Answer
utime_node t nr n w =
    if (t.euid == n.inode.uid) || permission t n.inode may_write
    then (true, iput nr w)
    else fail nr w

unfoldable pub sys_utime : Task → List ℕ → CallState → Answer
sys_utime t path w = at_path t path w null_fails (utime_node t)

-- sys_stat(); what it copies is left out.
unfoldable pub sys_stat : Task → List ℕ → CallState → Answer
sys_stat t path w = at_path t path w null_fails (λ nr n w. (true, iput nr w))

abbrev pub drop_old : Option ℕ → CallState → CallState
drop_old none w = w
drop_old (some nr) w = iput nr w

abbrev pub chdir_node : Task → ℕ → Node → CallState → Answer
chdir_node t nr n w =
    if not (is_dir n)
    then fail nr w
    else if not (permission t n.inode may_exec)
    then fail nr w
    else (true, record (drop_old w.pwd w) { pwd = some nr })

unfoldable pub sys_chdir : Task → List ℕ → CallState → Answer
sys_chdir t path w = at_path t path w null_fails (chdir_node t)

abbrev pub chroot_node : ℕ → Node → CallState → Answer
chroot_node nr n w =
    if not (is_dir n) then fail nr w else (true, record (drop_old w.root w) { root = some nr })

unfoldable pub sys_chroot : Task → List ℕ → CallState → Answer
sys_chroot t path w = at_path t path w null_fails chroot_node
