-- ===== src/Kernel/Identity/Examples.antt =====
-- A task of user 7 whose saved id is 8.
use linux.Base.{List, [], ◌∷◌, false, none, some, arith, no_bits, ◌==◌, if◌then◌else◌}
use linux.Kernel.Task.{Task, TaskState, TaskTable}
use linux.Kernel.Sched.Choice.{HasPriorities}
use linux.Kernel.Identity.Rights.{
  IdCall, set_uid, set_gid, do_calls, Unprivileged, Kept, do_calls-Unprivileged,
}

abbrev user : Task
user = record {
  state = TaskState.running;
  counter = 3;
  priority = 15;
  signal = no_bits;
  exit_code = 0;
  handlers = (λ i. 0);
  uid = 7;
  euid = 7;
  suid = 8;
  gid = 5;
  egid = 5;
  sgid = 5;
  alarm = 0;
  umask = 18;
  pid = 2;
  parent = 0;
  pgrp = 2;
  session = 2;
  leader = false;
  page = 0x200000;
}

abbrev table : TaskTable
table i = if i == 2 then some user else none

abbrev calls : List IdCall
calls = set_uid 8 ∷ set_uid 0 ∷ set_gid 5 ∷ set_uid 65536 ∷ []

user-Unprivileged : Unprivileged user
user-Unprivileged = record {
  real = λ e. absurd (omega arith);
  effective = λ e. absurd (omega arith);
  saved = λ e. absurd (omega arith);
}

do_calls-Unprivileged_example : Unprivileged (do_calls calls user) × Kept user (do_calls calls user)
do_calls-Unprivileged_example = do_calls-Unprivileged calls user user-Unprivileged

table-HasPriorities : HasPriorities table
table-HasPriorities j u h e = ground arith
