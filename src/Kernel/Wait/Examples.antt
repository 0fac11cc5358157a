-- ===== src/Kernel/Wait/Examples.antt =====
-- A parent with a living and a dead child.
use linux.Base.{◌≢◌, refl, [], false, none, some, arith, no_bits, ◌==◌, if◌then◌else◌}
use linux.Kernel.Task.{Task, TaskState, TaskTable, Sys}
use linux.Kernel.Wait.Defs.{sys_waitpid}
use linux.Kernel.Wait.Outcomes.{Ends, HasChild, waitpid_lem}

abbrev parent : Task
parent = record {
  state = TaskState.running;
  counter = 3;
  priority = 15;
  signal = no_bits;
  exit_code = 0;
  handlers = (λ i. 0);
  uid = 0;
  euid = 0;
  suid = 0;
  gid = 0;
  egid = 0;
  sgid = 0;
  alarm = 0;
  umask = 18;
  pid = 2;
  parent = 0;
  pgrp = 2;
  session = 2;
  leader = false;
  page = 0x200000;
}

abbrev living : Task
living = record parent { pid = 3; parent = 2 }

abbrev dead : Task
dead = record living { pid = 4; state = TaskState.zombie; exit_code = 7 }

abbrev table : TaskTable
table i =
    if i == 2
    then some parent
    else if i == 3
    then some living
    else if i == 4
    then some dead
    else none

abbrev machine : Sys
machine = record {
  task = table;
  current = 2;
  jiffies = 6;
  sleep_deadline = (λ i. 0);
  next_sync = 900;
  sync_interval = 500;
  sync_pending = false;
  freed = [];
}

default_chld : parent.handlers 17 ≢ 1
default_chld e = absurd (omega arith)

machine-HasChild : HasChild 2 machine.task
machine-HasChild = (3, _, omega arith, omega arith, refl, refl)

waitpid_lem_example : Ends 2 none false parent machine (sys_waitpid 2 none false parent machine)
waitpid_lem_example = waitpid_lem 2 none false parent machine default_chld
