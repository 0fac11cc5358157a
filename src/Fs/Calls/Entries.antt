-- ===== src/Fs/Calls/Entries.antt =====
-- The calls that make entries of a directory. What new_inode(), new_block() with the
-- bread() of its block, and the growth of the directory give is an argument: `fresh` is the number of
-- the inode, if there is one.
use linux.Base.{
  ℕ, ◌+◌, ◌%◌, Bool, true, false, not, Option, none, some, List, [], ◌∷◌, if◌then◌else◌, Word, bit,
  ◌|||◌, ◌&&&◌, no_bits,
}
use linux.Kernel.Task.{Task}
use linux.Fs.Names.{name_size, padded, split_path}
use linux.Fs.Directory.{Entries, find, dir_add_entry}
use linux.Fs.Permission.{Inode, permission}
use linux.Fs.Namei.{Node, is_dir}
use linux.Fs.Calls.Defs.{
  CallState, Answer, set_node, free_node, take_node, iput, fail, at_path, bits_from, may_write,
}

-- The directory part of a path, which has to be a directory that the task may write; `clean` is
-- what is given back before each failure.
abbrev pub writable_dir :
    Task → (CallState → CallState) → (ℕ → Node → CallState → Answer) → ℕ → Node → CallState → Answer
writable_dir t clean body nr dir w =
    if not (is_dir dir)
    then fail nr (clean w)
    else if not (permission t dir.inode may_write)
    then fail nr (clean w)
    else body nr dir w

abbrev pub at_parts :
    Task
    → (CallState → CallState)
    → (List ℕ → ℕ → Node → CallState → Answer)
    → CallState
    → Option (List ℕ × List ℕ)
    → Answer
at_parts t clean body w none = (false, clean w)
at_parts t clean body w (some (dirpath, name)) =
    at_path t dirpath w (λ w'. (false, clean w')) (writable_dir t clean (body name))

unfoldable pub in_parent :
    Task
    → List ℕ
    → (CallState → CallState)
    → (List ℕ → ℕ → Node → CallState → Answer)
    → CallState
    → Answer
in_parent t path clean body w = at_parts t clean body w (split_path path)

abbrev pub nothing : CallState → CallState
nothing w = w

-- What new_inode() leaves of the inode `ino`, with a reference.
abbrev pub new_blank : ℕ → Node
new_blank dev = record {
  inode = record { mode = no_bits; uid = 0; gid = 0; dev = dev; nlinks = 1 };
  entries = [];
}

abbrev pub new_node : ℕ → ℕ → CallState → CallState
new_node ino dev w = take_node ino (set_node ino (new_blank dev) w)

-- free_inode(inode); iput(inode); iput(dir)
abbrev pub undo : ℕ → ℕ → CallState → Answer
undo ino nr w = fail nr (iput ino (free_node ino w))

abbrev pub owned : Task → Word → ℕ → ℕ → Inode
owned t mode dev nlinks = record {
  mode = mode;
  uid = t.euid;
  gid = t.egid % 256;
  dev = dev;
  nlinks = nlinks;
}

abbrev pub made_entry : Task → Word → ℕ → ℕ → Node → CallState → Option Entries → Answer
made_entry t mode ino nr dir w none = undo ino nr w
made_entry t mode ino nr dir w (some es) = (
  true,
  iput ino (
      iput nr (
        set_node ino
          (record { inode = owned t (mode &&& bits_from 0 16) (dir.inode.dev) 1; entries = [] })
          (set_node nr (record dir { entries = es }) w))),
)

abbrev pub mknod_at : Task → Word → Option ℕ → Bool → List ℕ → ℕ → Node → CallState → Answer
mknod_at t mode fresh room name nr dir w = elim (find dir.entries name) [
  | some ino ↦ fail nr w
  | none ↦ elim fresh [
    | none ↦ fail nr w
    | some ino ↦
        made_entry t mode ino nr dir (new_node ino (dir.inode.dev) w)
          (dir_add_entry name ino room dir.entries)
  ]
]

unfoldable pub sys_mknod : Task → List ℕ → Word → Option ℕ → Bool → CallState → Answer
sys_mknod t path mode fresh room w = in_parent t path nothing (mknod_at t mode fresh room) w

-- The entries `.` and `..`; what the block has behind their NUL, which no search reads, is zeros
-- here.
abbrev pub dots : ℕ → ℕ → Entries
dots ino parent =
    some (record { inode = ino; name = padded name_size (46 ∷ []) })
    ∷ some (record { inode = parent; name = padded name_size (46 ∷ 46 ∷ []) })
    ∷ []

-- (mode & 0777) | 0x4000
abbrev pub dir_mode : Word → Word
dir_mode mode = (mode &&& bits_from 0 9) ||| bit 14

abbrev pub more_links : Inode → Inode
more_links o = record o { nlinks = (o.nlinks + 1) % 256 }

abbrev pub fewer_links : Inode → Inode
fewer_links o = record o { nlinks = (o.nlinks + 255) % 256 }

abbrev pub made_dir : ℕ → ℕ → Node → CallState → Option Entries → Answer
made_dir ino nr dir w none = undo ino nr w
made_dir ino nr dir w (some es) = (
  true,
  iput ino (iput nr (set_node nr (record { inode = more_links (dir.inode); entries = es }) w)),
)

abbrev pub new_dir : Task → Word → ℕ → ℕ → Node → Node
new_dir t mode ino nr dir = record {
  inode = owned t (dir_mode mode) (dir.inode.dev) 2;
  entries = dots ino nr;
}

abbrev pub mkdir_at : Task → Word → Option ℕ → Bool → Bool → List ℕ → ℕ → Node → CallState → Answer
mkdir_at t mode fresh zone room name nr dir w = elim (find dir.entries name) [
  | some ino ↦ fail nr w
  | none ↦ elim fresh [
    | none ↦ fail nr w
    | some ino ↦
        let w' = new_node ino (dir.inode.dev) w in
        if not zone
        then undo ino nr w'
        else made_dir ino nr dir (set_node ino (new_dir t mode ino nr dir) w')
            (dir_add_entry name ino room dir.entries)
  ]
]

unfoldable pub sys_mkdir : Task → List ℕ → Word → Option ℕ → Bool → Bool → CallState → Answer
sys_mkdir t path mode fresh zone room w =
    in_parent t path nothing (mkdir_at t mode fresh zone room) w
