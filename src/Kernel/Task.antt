-- ===== src/Kernel/Task.antt =====
-- `struct task_struct` (include/linux/sched.h) and the globals of kernel/sched.c. A pointer to a
-- task is its slot in task[]; `page` stands for the address of the page that holds the task.
-- The TSS, the LDT and the image table are no part of the record.
use linux.Base.{ℕ, Bool, Option, List, Word}

pub data TaskState : Type 0 where
  running interruptible uninterruptible zombie stopped : TaskState

pub record Task : Type 0 where
  pub state : TaskState
  pub counter : ℕ
  pub priority : ℕ
  pub signal : Word
  pub exit_code : ℕ
  pub handlers : ℕ → ℕ
  pub uid : ℕ
  pub euid : ℕ
  pub suid : ℕ
  pub gid : ℕ
  pub egid : ℕ
  pub sgid : ℕ
  pub alarm : ℕ
  pub umask : ℕ
  pub pid : ℕ
  pub parent : ℕ
  pub pgrp : ℕ
  pub session : ℕ
  pub leader : Bool
  pub page : ℕ

abbrev pub nr_tasks : ℕ
nr_tasks = 64

abbrev pub hz : ℕ
hz = 100

abbrev pub sig_dfl : ℕ
sig_dfl = 0

abbrev pub sig_ign : ℕ
sig_ign = 1

abbrev pub sigkill : ℕ
sigkill = 9

abbrev pub sigpipe : ℕ
sigpipe = 13

abbrev pub sigalrm : ℕ
sigalrm = 14

abbrev pub sigchld : ℕ
sigchld = 17

abbrev pub sigcont : ℕ
sigcont = 18

abbrev pub sigstop : ℕ
sigstop = 19

-- The task table: `none` is a null slot.
abbrev pub TaskTable : Type 0
TaskTable = ℕ → Option Task

-- `state == TASK_RUNNING`, and so on.
abbrev pub is_running : TaskState → Bool
is_running TaskState.running = Bool.true
is_running _ = Bool.false

abbrev pub is_interruptible : TaskState → Bool
is_interruptible TaskState.interruptible = Bool.true
is_interruptible _ = Bool.false

abbrev pub is_uninterruptible : TaskState → Bool
is_uninterruptible TaskState.uninterruptible = Bool.true
is_uninterruptible _ = Bool.false

abbrev pub is_zombie : TaskState → Bool
is_zombie TaskState.zombie = Bool.true
is_zombie _ = Bool.false

abbrev pub is_stopped : TaskState → Bool
is_stopped TaskState.stopped = Bool.true
is_stopped _ = Bool.false

-- The globals that scheduling and the timer read and write. `freed` lists the task pages handed to
-- free_page(), the last one first.
pub record Sys : Type 0 where
  pub task : TaskTable
  pub current : ℕ
  pub jiffies : ℕ
  pub sleep_deadline : ℕ → ℕ
  pub next_sync : ℕ
  pub sync_interval : ℕ
  pub sync_pending : Bool
  pub freed : List ℕ
