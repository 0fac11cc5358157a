-- ===== src/Kernel/Fork/Examples.antt =====
-- A task with two descriptors of one file.
use linux.Base.{◌≡◌, refl, true, ◌||◌, none, some, [], ◌==◌, if◌then◌else◌}
use linux.Kernel.Fork.Defs.{
  Process, World, no_dir, copied, free_slot, hold_files, share, give_up, address_space, fork_into,
  sys_fork,
}
use linux.Kernel.Fork.Shares.{Leaves, fork_into_lem}

abbrev parent : Process
parent = record {
  pwd = some 1;
  root = none;
  exe_inode = some 4;
  filp = (λ fd. if (fd == 0) || (fd == 1) then some 9 else none);
  pg_dir = 0x300000;
  pid = 1;
  parent = 0;
}

abbrev world : World
world = record {
  table = (λ i. if (i == 0) || (i == 1) then some parent else none);
  i_count = (λ k. 1);
  f_count = (λ f. 2);
  freed_dirs = [];
  freed_pages = [];
}

fork_into_lem_example : Leaves parent world 2 (fork_into true true no_dir 0x500000 1 2 parent world)
fork_into_lem_example = fork_into_lem parent world 1 2 0x500000 true true no_dir

-- The child gets slot 2, the file 4 references and the working directory 2.
forked :
    ((sys_fork (some 0x500000) true true (copied 0x600000) 1 parent world).0 ≡ some 2)
    × ((sys_fork (some 0x500000) true true (copied 0x600000) 1 parent world).1.f_count 9 ≡ 4)
    × ((sys_fork (some 0x500000) true true (copied 0x600000) 1 parent world).1.i_count 1 ≡ 2)
unfolding sys_fork free_slot fork_into share hold_files address_space
forked = (refl, refl, refl)

-- No page directory can be had: the file keeps the references of the child that is not there.
leaked :
    ((sys_fork (some 0x500000) true true no_dir 1 parent world).0 ≡ none)
    × ((sys_fork (some 0x500000) true true no_dir 1 parent world).1.f_count 9 ≡ 4)
    × ((sys_fork (some 0x500000) true true no_dir 1 parent world).1.i_count 4 ≡ 2)
    × ((sys_fork (some 0x500000) true true no_dir 1 parent world).1.i_count 1 ≡ 1)
unfolding sys_fork free_slot fork_into share hold_files address_space give_up
leaked = (refl, refl, refl, refl)
