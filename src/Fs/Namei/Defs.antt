-- ===== src/Fs/Namei/Defs.antt =====
-- The walk of one task while nothing else changes the file system. The search of a directory is the
-- one without the cache, which gives the same answers.
use linux.Base.{
  ℕ, zero, suc, ◌+◌, ◌%◌, Bool, true, false, ◌&&◌, Option, none, some, List, [], ◌∷◌, ◌==◌,
  if◌then◌else◌, length, get_or, update, Word, bit,
}
use linux.Kernel.Task.{Task}
use linux.Fs.Names.{component, slash}
use linux.Fs.Directory.{Entries, find}
use linux.Fs.Permission.{Inode, permission}

pub record Node : Type 0 where
  pub inode : Inode
  pub entries : Entries

-- What iget(0x301, nr) gives: `none` where the inode table is full or the block cannot be read.
abbrev pub Loads : Type 0
Loads = ℕ → Option Node

-- i_count of every inode of the root device, an unsigned char.
abbrev pub Counts : Type 0
Counts = ℕ → ℕ

abbrev pub gained : Counts → ℕ → Counts
gained counts nr = update counts nr ((counts nr + 1) % 256)

-- What iput() does to i_count.
abbrev pub put : Counts → ℕ → Counts
put counts nr = update counts nr ((counts nr + 255) % 256)

-- NULL is `missing`; `out_of_fuel` does not stand for anything in the code.
pub data Result : Type 0 where
  found : ℕ → Result
  missing out_of_fuel : Result

-- MAY_EXEC
abbrev pub may_exec : Word
may_exec = bit 0

-- i_mode & S_IFDIR
abbrev pub is_dir : Node → Bool
is_dir n = n.inode.mode 14

abbrev pub is_end : List ℕ → Bool
is_end [] = true
is_end (c ∷ cs) = false

-- namelen == 1 && name[0] == '.'
abbrev pub is_dot : List ℕ → Bool
is_dot name = (length name == 1) && (get_or name 0 0 == 46)

abbrev pub lookup_in : Node → List ℕ → Option ℕ
lookup_in n name = if is_dir n then find n.entries name else none

-- The loop, at an inode on which the walk holds a reference.
unfoldable pub walk : ℕ → Task → Loads → ℕ → Node → List ℕ → Counts → Result × Counts
walk zero t d nr node p counts = (out_of_fuel, counts)
walk (suc fuel) t d nr node p counts =
    let (name, rest) = component p in
    let here = walk fuel t d nr node rest counts in
    if is_dot name
    then (if is_end rest
        then (found nr, counts)
        else if permission t node.inode may_exec
        then here
        else (missing, put counts nr))
    else elim (lookup_in node name) [
      | none ↦ (missing, put counts nr)
      | some ino ↦ elim (d ino) [
        | none ↦ (missing, put counts nr)
        | some next ↦
            let held = gained (put counts nr) ino in
            let below = walk fuel t d ino next rest held in
            if is_end rest
            then (found ino, held)
            else if is_dir next && permission t next.inode may_exec
            then below
            else (missing, put held ino)
      ]
    ]

-- The starting inode: current->root, else inode 1 for an absolute path, and current->pwd, where
-- there is one, for a relative path. A path that ends there is the starting inode itself.
unfoldable pub start : Task → Loads → Option ℕ → List ℕ → Counts → Result × Counts
start t d none p counts = (missing, counts)
start t d (some nr) p counts = elim (d nr) [
  | none ↦ (missing, counts)
  | some node ↦
      let held = gained counts nr in
      let walked = walk (length p) t d nr node p held in
      if is_end p then (found nr, held) else walked
]

abbrev pub root_of : Option ℕ → ℕ
root_of none = 1
root_of (some nr) = nr

-- namei(), with current->root and current->pwd.
unfoldable pub namei : Task → Loads → Option ℕ → Option ℕ → List ℕ → Counts → Result × Counts
namei t d root pwd [] counts = start t d pwd [] counts
namei t d root pwd (c ∷ cs) counts =
    if c == slash then start t d (some (root_of root)) cs counts else start t d pwd (c ∷ cs) counts
