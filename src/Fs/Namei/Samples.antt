-- ===== src/Fs/Namei/Samples.antt =====
-- A small tree of directories, and a task that is not root.
use linux.Base.{ℕ, false, none, some, List, [], ◌∷◌, ◌==◌, ◌||◌, no_bits, if◌then◌else◌}
use linux.Kernel.Task.{Task, TaskState}
use linux.Fs.Names.{padded}
use linux.Fs.Permission.{Inode}
use linux.Fs.Namei.Defs.{Node, Loads, Counts}

abbrev pub user : Task
user = record {
  state = TaskState.running;
  counter = 3;
  priority = 15;
  signal = no_bits;
  exit_code = 0;
  handlers = (λ i. 0);
  uid = 7;
  euid = 7;
  suid = 7;
  gid = 5;
  egid = 5;
  sgid = 5;
  alarm = 0;
  umask = 18;
  pid = 2;
  parent = 0;
  pgrp = 2;
  session = 2;
  leader = false;
  page = 0x200000;
}

-- A directory of root that everybody may traverse, and one that only its group may.
abbrev pub shared : Inode
shared = record { mode = (λ k. (k == 0) || (k == 14)); uid = 0; gid = 0; dev = 769; nlinks = 2 }

abbrev pub grouped : Inode
grouped = record { mode = (λ k. (k == 3) || (k == 14)); uid = 0; gid = 5; dev = 769; nlinks = 2 }

abbrev pub a : List ℕ
a = 97 ∷ []

abbrev pub b : List ℕ
b = 98 ∷ []

-- /a is a directory with the file b, inode 4.
abbrev pub root : Node
root = record { inode = shared; entries = some (record { inode = 3; name = padded 14 a }) ∷ [] }

abbrev pub below : Node
below = record { inode = grouped; entries = some (record { inode = 4; name = padded 14 b }) ∷ [] }

abbrev pub file : Node
file = record { inode = record shared { mode = no_bits }; entries = [] }

abbrev pub disk : Loads
disk nr =
    if nr == 1
    then some root
    else if nr == 3
    then some below
    else if nr == 4
    then some file
    else none

abbrev pub idle : Counts
idle nr = 0
