-- ===== src/Kernel/Sched/Defs.antt =====
-- The scheduler's loops as functions. Loops whose rounds touch only their own slot are pointwise.
use mathlib.Core.Option
use linux.Base.{
  ℕ, zero, suc, ◌+◌, ◌-◌, ◌/◌, ◌%◌, ◌^◌, Bool, true, false, not, ◌&&◌, ◌||◌, Option, none, some,
  ◌∷◌, ltb, leb, ◌==◌, if◌then◌else◌, update, bit, ◌|||◌,
}
use linux.Kernel.Task.{
  Task, TaskState, TaskTable, Sys, nr_tasks, is_running, is_zombie, is_interruptible,
  is_uninterruptible, sig_ign, sigchld, sigalrm,
}

-- Does nobody wait for the zombie: is its parent's slot empty, or does the parent ignore SIGCHLD?
abbrev pub unawaited : Option Task → Bool
unawaited none = true
unawaited (some par) = par.handlers sigchld == sig_ign

-- One round of the reaping loop at slot `i`.
unfoldable pub reap_slot : ℕ → Option Task → Sys → Sys
reap_slot i none s = s
reap_slot i (some z) s =
    if not (i == s.current) && is_zombie z.state && unawaited (s.task z.parent)
    then record s { task = update s.task i none; freed = z.page ∷ s.freed }
    else s

-- for (i = 0; i < NR_TASKS; i++): `n` rounds are left, the next is for slot `i`.
unfoldable pub reap_zombies : ℕ → ℕ → Sys → Sys
reap_zombies zero i s = s
reap_zombies (suc n) i s = reap_zombies n (i + 1) (reap_slot i (s.task i) s)

-- `counter` and `priority` are longs, here the bit patterns of 32 bits.
abbrev pub is_negative : ℕ → Bool
is_negative x = leb (2 ^ 31) x

-- counter >> 1, which keeps the sign
abbrev pub halved : ℕ → ℕ
halved x = if is_negative x then x / 2 + 2 ^ 31 else x / 2

-- The best candidate so far: its counter `c` and its slot `next`; `none` is c == -1.
abbrev pub Best : Type 0
Best = Option (ℕ × ℕ)

abbrev pub beats : Task → Best → Bool
beats t none = not (is_negative t.counter)
beats t (some (c, _)) = not (is_negative t.counter) && ltb c t.counter

unfoldable pub consider : ℕ → Option Task → Best → Best
consider i none best = best
consider i (some t) best = if is_running t.state && beats t best then some (t.counter, i) else best

-- The selection loop goes from the last slot down to slot 0.
unfoldable pub pick : TaskTable → ℕ → Best → Best
pick table zero best = best
pick table (suc i) best = pick table i (consider i (table i) best)

-- counter = (counter >> 1) + priority
abbrev pub charge : Task → Task
charge t = record t { counter = (halved t.counter + t.priority) % 2 ^ 32 }

unfoldable pub recharge : TaskTable → TaskTable
recharge table i = if ltb i nr_tasks then Option.map charge (table i) else table i

-- How the selection ends: a task to switch to, or the machine halts until the next interrupt.
pub data Choice : Type 0 where
  chosen : ℕ → TaskTable → Choice
  idle : TaskTable → Choice

-- The body of while (1) after the scan; `again` is what the next round does.
unfoldable pub settle : Best → TaskTable → Option Choice → Option Choice
settle none table again = some (idle (recharge table))
settle (some (zero, next)) table again = again
settle (some (suc c, next)) table again = some (chosen next table)

-- while (1), on fuel: `none` means that the fuel ran out.
unfoldable pub select_task : ℕ → TaskTable → Option Choice
select_task zero table = none
select_task (suc fuel) table =
    let again = select_task fuel (recharge table) in settle (pick table nr_tasks none) table again

-- schedule() up to switch_to(): the zombies, then the choice. Two rounds are enough.
unfoldable pub schedule : Sys → Sys × Option Choice
unfolding select_task
schedule s = let s' = reap_zombies nr_tasks 0 s in (s', select_task 2 s'.task)

abbrev pub word_mod : ℕ
word_mod = 2 ^ 32

-- (long)(a - b) < 0 for two unsigned 32-bit numbers
abbrev pub before : ℕ → ℕ → Bool
before a b = leb (2 ^ 31) ((a + word_mod - b) % word_mod)

-- alarm(2) for one task
unfoldable pub ring_alarm : ℕ → Task → Task
ring_alarm now t = if t.alarm == 0 || ltb now t.alarm then t else record t {
  signal = t.signal ||| bit sigalrm;
  alarm = 0;
  state = if is_interruptible t.state then TaskState.running else t.state;
}

-- a deadline sleeper whose deadline has passed
unfoldable pub wake_sleeper : ℕ → ℕ → Task → Task
wake_sleeper now deadline t = if deadline == 0 || before now deadline then t else record t {
  state =
      if is_interruptible t.state || is_uninterruptible t.state then TaskState.running else t.state;
}

-- Does the tick clear the deadline of slot `i`?
abbrev pub expires : ℕ → ℕ → Option Task → Bool
expires now deadline none = false
expires now deadline (some t) = not (deadline == 0) && not (before now deadline)

-- (*p)->state = TASK_RUNNING
abbrev pub wake : Task → Task
wake t = record t { state = TaskState.running }

-- event_sync() wakes the write-back task in the last slot through a local pointer.
unfoldable pub event_sync : Sys → Sys
event_sync s = record s {
  next_sync = (s.jiffies + s.sync_interval) % word_mod;
  sync_pending = true;
  task = update s.task (nr_tasks - 1) (Option.map wake (s.task (nr_tasks - 1)));
}

-- if (current->counter > 0) current->counter--
unfoldable pub spend_tick : Task → Task
spend_tick t = record t { counter = if is_negative t.counter then t.counter else t.counter - 1 }

-- The part of do_timer() before the scheduling decision: jiffies, alarms, deadlines, write-back.
unfoldable pub tick : Sys → Sys
unfolding ring_alarm wake_sleeper event_sync
tick s =
    let now = (s.jiffies + 1) % word_mod in
    let s' : Sys = record s {
      jiffies = now;
      task = (λ i.
          if ltb i nr_tasks
          then Option.map (λ t. wake_sleeper now (s.sleep_deadline i) (ring_alarm now t)) (s.task i)
          else s.task i);
      sleep_deadline = (λ i.
          if ltb i nr_tasks && expires now (s.sleep_deadline i) (s.task i)
          then 0
          else s.sleep_deadline i);
    } in
    if before now s.next_sync then s' else event_sync s'

-- The end of do_timer(): the current task pays for the tick and keeps the processor while it has
-- some of its slice left; `none` in the result means that schedule() is not called.
unfoldable pub do_timer : Sys → Sys × Option Choice
unfolding tick spend_tick schedule
do_timer s =
    let t = tick s in
    let s' : Sys = record t {
      task = update t.task t.current (Option.map spend_tick (t.task t.current));
    } in
    elim (s'.task s'.current) [
      | none ↦ schedule s'
      | some c ↦ if ltb 0 c.counter && not (is_negative c.counter) then (s', none) else schedule s'
    ]
