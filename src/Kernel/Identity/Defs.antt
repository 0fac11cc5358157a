-- ===== src/Kernel/Identity/Defs.antt =====
-- The calls, each on the calling task, or on the table for sys_setpgid(). The argument of a set call
-- is cut to an unsigned short. The results -1 are `none`.

use linux.Base.{
  ℕ, ◌+◌, ◌-◌, ◌*◌, ◌%◌, ◌^◌, true, ◌&&◌, ◌||◌, Option, none, some, ltb, ◌==◌, if◌then◌else◌,
  update,
}
use linux.Kernel.Task.{Task, TaskTable, nr_tasks, hz}

abbrev pub short : ℕ → ℕ
short n = n % 2 ^ 16

unfoldable pub sys_setuid : ℕ → Task → Option Task
sys_setuid uid t =
    if t.euid == 0
    then some (record t { uid = short uid; euid = short uid; suid = short uid })
    else if t.uid == short uid || t.suid == short uid
    then some (record t { euid = short uid })
    else none

unfoldable pub sys_setgid : ℕ → Task → Option Task
sys_setgid gid t =
    if t.euid == 0
    then some (record t { gid = short gid; egid = short gid; sgid = short gid })
    else if t.gid == short gid || t.sgid == short gid
    then some (record t { egid = short gid })
    else none

-- `seconds` is not negative; 0 cancels the alarm, as a negative number does.
unfoldable pub sys_alarm : ℕ → ℕ → Task → Task
sys_alarm now seconds t = record t {
  alarm = if ltb 0 seconds then (now + hz * seconds) % 2 ^ 32 else 0;
}

-- The increment of nice(): the priority goes down by a number that is not negative, or up. The sum
-- wraps at 32 bits, and one that is not positive as a long is refused.
pub data Increment : Type 0 where
  less more : ℕ → Increment

unfoldable pub sys_nice : Increment → Task → Task
sys_nice (less n) t = if ltb n t.priority then record t { priority = t.priority - n } else t
sys_nice (more n) t =
    let p = (t.priority + n) % 2 ^ 32 in
    if ltb 0 p && ltb p (2 ^ 31) then record t { priority = p } else t

-- `current` is the calling task's slot. A pid is not negative here.
unfoldable pub sys_setpgid : ℕ → ℕ → ℕ → TaskTable → Option TaskTable
sys_setpgid current pid pgid table =
    let slot = if pid == 0 then current else pid in
    if pid == 0 || ltb pid nr_tasks
    then (elim (table slot) [
      | none ↦ none
      | some p ↦
          some (update table slot (some (record p { pgrp = if pgid == 0 then p.pid else pgid })))
    ])
    else none

unfoldable pub sys_setsid : Task → ℕ × Task
sys_setsid t = (t.pid, record t { pgrp = t.pid; session = t.pid; leader = true })

unfoldable pub sys_umask : ℕ → Task → ℕ × Task
sys_umask mask t = (t.umask, record t { umask = mask % 512 })
