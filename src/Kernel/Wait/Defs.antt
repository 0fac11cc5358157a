-- ===== src/Kernel/Wait/Defs.antt =====
-- One pass of sys_waitpid() over the task table. `me` is the caller's slot, `wanted` the pid to wait
-- for, or none for any child. The store to *stat_addr is part of the result.
use linux.Base.{
  ℕ, zero, suc, ◌+◌, ◌-◌, Bool, true, false, ◌&&◌, ◌||◌, Option, none, some, ◌∷◌, ◌==◌,
  if◌then◌else◌, update,
}
use linux.Kernel.Task.{Task, TaskState, TaskTable, Sys, nr_tasks, is_zombie, sig_ign, sigchld}

abbrev pub wanted_is : Option ℕ → Task → Bool
wanted_is none p = true
wanted_is (some pid) p = p.pid == pid

-- Where the scan stops: at a child that can be reaped, or at the end, having seen a child or not.
pub data Seen : Type 0 where
  ready : ℕ → Task → Seen
  finished : Bool → Seen

-- A slot that holds a zombie child that is wanted.
abbrev pub can_reap : ℕ → Option ℕ → Task → Bool
can_reap me wanted p = p.parent == me && wanted_is wanted p && is_zombie p.state

abbrev pub is_child : ℕ → Option Task → Bool
is_child me none = false
is_child me (some p) = p.parent == me

abbrev pub stops_at : ℕ → Option ℕ → ℕ → Option Task → Seen → Seen
stops_at me wanted i none rest = rest
stops_at me wanted i (some p) rest = if can_reap me wanted p then ready i p else rest

-- for (i = 1; i < NR_TASKS; i++), with `n` rounds left and found_any so far
unfoldable pub look : ℕ → ℕ → Option ℕ → TaskTable → ℕ → Bool → Seen
look zero me wanted table i seen = finished seen
look (suc n) me wanted table i seen =
    stops_at me wanted i (table i) (look n me wanted table (i + 1) (seen || is_child me (table i)))

-- The result of a call: a child's pid and exit code, -1, 0, or the call sleeps until a signal wakes
-- it and then looks again.
pub data Wait : Type 0 where
  reaped : ℕ → ℕ → Sys → Wait
  failed : Wait
  not_yet : Wait
  asleep : Sys → Wait

abbrev pub sleep : Task → Task
sleep t = record t { state = TaskState.interruptible }

abbrev pub answer : ℕ → Bool → Task → Sys → Seen → Wait
answer me no_hang t s (ready i p) =
    reaped p.pid p.exit_code (record s { task = update s.task i none; freed = p.page ∷ s.freed })
answer me no_hang t s (finished false) = failed
answer me no_hang t s (finished true) =
    if no_hang then not_yet else asleep (record s { task = update s.task me (some (sleep t)) })

-- `t` is the calling task.
unfoldable pub sys_waitpid : ℕ → Option ℕ → Bool → Task → Sys → Wait
unfolding look
sys_waitpid me wanted no_hang t s =
    if t.handlers sigchld == sig_ign
    then failed
    else answer me no_hang t s (look (nr_tasks - 1) me wanted s.task 1 false)
