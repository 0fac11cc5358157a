-- ===== src/Lib.antt =====
-- A verification library for the kernel of linux 0.01: its scheduler and timer, signals, memory
-- management, formatted output, names, directories, regular files, the buffer cache and pipes, as
-- functions on explicit states, with what makes them correct.
--
-- The parts and their files:
-- - Base: shared names, Boolean tests, arrays as lists, tables as functions, words as bit sets.
-- - Kernel.Task: struct task_struct (include/linux/sched.h) and the globals of kernel/sched.c.
-- - Kernel.Sched: schedule() and do_timer() of kernel/sched.c, event_sync() of kernel/sync.c. A
--   for loop over the task table is a recursion on the rounds left, or a pointwise function where
--   its rounds touch only their own slot. The loop while (1) of schedule() runs on fuel; two
--   rounds are enough if every task has a positive priority and no counter overflows.
-- - Kernel.Signal: sys_signal(), sys_sigaction(), sys_sigprocmask(), sys_sigsuspend(), do_signal()
--   and the frame bounds of deliver_signal() (kernel/process.c), and sys_kill() (kernel/sys.c).
--   The arrays beside task[] are the record Signals.
-- - Kernel.Wait: sys_waitpid() (kernel/process.c), one pass over the table.
-- - Kernel.Fork: sys_fork() (kernel/process.c), its slot, references and page directory; what the
--   memory calls give is an argument.
-- - Kernel.Identity: setuid, setgid, alarm, nice, setpgid, setsid and umask (kernel/sys.c).
-- - Kernel.Format: vsprintf() (kernel/vsprintf.c), on lists of characters. Its loop runs on fuel,
--   the length of the format; num_to_str() on 32, the size of its buffer.
-- - Mm: mm/memory.c. State is the frame map, the swap map, the user page tables, and the contents
--   of frames and slots; Frames is get_free_page()'s scan, free_page() and mem_init(); Swap is the
--   slots and transfers; Reclaim is try_to_free_page(); Space is address spaces,
--   copy_page_tables(), user_addr_ok() and do_no_page(). The bounds of its loops are those of the
--   source: 1024 entries, 64 tasks, 3 passes, 2 rounds, and 32 attempts of get_free_page().
-- - Mm.Heap: malloc() (lib/malloc.c), the heap of the kernel, on 32-bit addresses.
-- - Strings: block, string and character functions of lib/string.c and lib/ctype.c.
-- - Fs.Names: name_eq(), the components of a path and split_path() (fs/namei.c).
-- - Fs.Directory: the search and change of a directory (fs/namei.c) as a list of entries, and what
--   sys_rename() (kernel/sys.c) makes of them. An entry that cannot be read is `none`; whether
--   there is room for another entry is an argument.
-- - Fs.Dcache: the directory cache (fs/namei.c) round these searches and changes.
-- - Fs.Permission: permission() (fs/namei.c), with a mode as a set of bits.
-- - Fs.Namei: namei() (fs/namei.c) with the reference counts that iget() and iput() change. Its
--   loop runs on fuel, the length of the path. What iget() loads is a function of the inode number.
-- - Fs.Bitmap: the zone map and the inode map of a device (fs/bitmap.c), bit by bit, and the
--   release of an inode's zones (fs/inode.c, fs/namei.c).
-- - Fs.Inodes: the inode table (fs/inode.c) in front of the inodes on the disks, 64 slots; a call
--   runs without another task in between, so that i_lock and i_wait are left out.
-- - Fs.Buffers: the buffer cache (fs/buffer.c) in front of the disk, 256 heads with their hash chains
--   and the ring; a call runs without another task in between. What the dirty inodes change of
--   their blocks is an argument of sync_dev(). What a failed transfer leaves is an
--   argument. Store is its use by the file system, and the same calls on an array of blocks.
-- - Fs.Files: file_read() and file_write() (fs/file_dev.c) on the blocks of a device, which they
--   reach through bread(). Their loops run on fuel, the count, since each round takes a byte.
-- - Fs.Calls: the calls on names (kernel/sys.c): sys_chmod(), sys_chown(), sys_access(),
--   sys_utime(), sys_stat(), sys_chdir(), sys_chroot(), sys_mknod(), sys_mkdir(), sys_unlink(),
--   sys_rmdir(), sys_link(), and sys_open() from its namei() on. CallState has the inodes, their
--   i_count (one byte) and the root and pwd of the task; inodes that are freed or emptied are listed. Arguments
--   are what new_inode() and new_block() give and whether a directory has room for another entry.
-- - Fs.Descriptors: sys_close(), sys_dup(), sys_dup2() and dupfd() of sys_fcntl() (kernel/sys.c),
--   iput() as a list of files.
-- - Fs.Pipe: read_pipe() and write_pipe() of fs/pipe.c, wake_up() and sleep_on() of fs/buffer.c. A
--   call that sleeps is a value that says what is left to do.
--
-- The scheduler's functions, the timer's and the signals' share the task record; the reclaimer
-- calls the frames and the swap, and the address spaces call all three. namei() reads components
-- by Fs.Names, searches by Fs.Directory and asks Fs.Permission. The files take their zones from
-- Fs.Bitmap, and what bread() gives them is what Fs.Buffers
-- says. The calls on names go through namei() and change the entries by Fs.Directory.
--
-- Code outside the model: the disk driver is a parameter (Mm.Swap.Disk), and since it sleeps it
-- may return any state; IsQuiet is the hypothesis that transfers succeed and no other task runs
-- meanwhile. file_read(), which fills pages of a program, is a parameter of do_no_page()
-- (ReadExe). The TLB flush, trace messages, switch_to() and the words of a signal frame are left
-- out. In the file system the zones of a directory, the superblock, i_mtime and what sys_stat()
-- copies are not modelled. The rest of fork, exit and execve, the system calls that are not named
-- above, the drivers, the kernel shell and assembly are not modelled either.
pub mod Base
pub mod Kernel
pub mod Mm
pub mod Fs
pub mod Strings
