-- ===== src/Kernel/Sched/Examples.antt =====
-- A machine with a few tasks, for kernel/sched.c.
use linux.Base.{ℕ, ◌≡◌, ◌⊎◌, [], false, none, some, arith, no_bits, ◌==◌, if◌then◌else◌}
use linux.Kernel.Task.{Task, TaskState, TaskTable, Sys}
use linux.Kernel.Sched.Defs.{select_task, chosen, idle, recharge}
use linux.Kernel.Sched.Choice.{HasPriorities, Deserves, NobodyRuns, select_task_lem}

-- A runnable task of priority 15, and variants of it.
abbrev worker : Task
worker = record {
  state = TaskState.running;
  counter = 3;
  priority = 15;
  signal = no_bits;
  exit_code = 0;
  handlers = (λ i. 0);
  uid = 0;
  euid = 0;
  suid = 0;
  gid = 0;
  egid = 0;
  sgid = 0;
  alarm = 0;
  umask = 18;
  pid = 1;
  parent = 0;
  pgrp = 1;
  session = 1;
  leader = false;
  page = 0x200000;
}

abbrev sleeper : Task
sleeper = record worker { state = TaskState.interruptible; alarm = 5 }

abbrev dead : Task
dead = record worker { state = TaskState.zombie; parent = 9 }

abbrev table : TaskTable
table i =
    if i == 1
    then some worker
    else if i == 2
    then some sleeper
    else if i == 3
    then some dead
    else none

abbrev machine : Sys
machine = record {
  task = table;
  current = 1;
  jiffies = 6;
  sleep_deadline = (λ i. if i == 2 then 7 else 0);
  next_sync = 900;
  sync_interval = 3000;
  sync_pending = false;
  freed = [];
}

table-HasPriorities : HasPriorities table
table-HasPriorities j u h e = (ground arith, ground arith, ground arith)

select_task_lem_example :
    ((i : ℕ) × (table' : TaskTable) × (select_task 2 table ≡ some (chosen i table'))
      × ((table' ≡ table) ⊎ (table' ≡ recharge table))
      × Deserves table' i)
    ⊎ ((select_task 2 table ≡ some (idle (recharge table))) × NobodyRuns table)
select_task_lem_example = select_task_lem table table-HasPriorities
