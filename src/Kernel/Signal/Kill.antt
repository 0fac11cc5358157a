-- ===== src/Kernel/Signal/Kill.antt =====
-- sys_kill(): one task, a process group, or the existence check.
use mathlib.Core.Option
use linux.Base.{
  ℕ, zero, suc, Bool, true, false, ◌&&◌, ◌||◌, Option, none, some, ltb, leb, ◌==◌, if◌then◌else◌,
  update, bit, ◌|||◌,
}
use linux.Kernel.Task.{Task, TaskState, TaskTable, nr_tasks, sigcont, is_interruptible, is_stopped}

-- The pid argument: positive, or zero or negative for a group.
pub data Target : Type 0 where
  one : ℕ → Target
  group : ℕ → Target

-- p->signal |= 1 << sig, and wake or continue the task
unfoldable pub post : ℕ → Task → Task
post sig t = record t {
  signal = t.signal ||| bit sig;
  state =
      if is_interruptible t.state || sig == sigcont && is_stopped t.state
      then TaskState.running
      else t.state;
}

abbrev pub in_group : ℕ → Option Task → Bool
in_group g none = false
in_group g (some t) = t.pgrp == g

-- Is some task among the first `n` slots in the group?
unfoldable pub any_in_group : ℕ → ℕ → TaskTable → Bool
any_in_group zero g table = false
any_in_group (suc n) g table = in_group g (table n) || any_in_group n g table

abbrev pub is_some : Option Task → Bool
is_some none = false
is_some (some t) = true

-- The loop over the group is pointwise. The Boolean is the result 0.
unfoldable pub sys_kill : Target → ℕ → TaskTable → Bool × TaskTable
unfolding post any_in_group
sys_kill (one pid) zero table = (ltb pid nr_tasks && is_some (table pid), table)
sys_kill (group g) zero table = (any_in_group nr_tasks g table, table)
sys_kill (one pid) (suc n) table =
    if leb 32 (suc n) || leb nr_tasks pid
    then (false, table)
    else (is_some (table pid), update table pid (Option.map (post (suc n)) (table pid)))
sys_kill (group g) (suc n) table = if leb 32 (suc n) then (false, table) else (
  any_in_group nr_tasks g table,
  (λ i.
      if ltb i nr_tasks && in_group g (table i)
      then Option.map (post (suc n)) (table i)
      else table i),
)
