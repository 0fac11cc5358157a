-- ===== src/Kernel/Sched/Timer.antt =====
-- What a timer tick does to a task.
use mathlib.Core.Option
use linux.Base.{
  ℕ, ◌+◌, ◌-◌, ◌%◌, ◌≤◌, ◌<◌, ◌≡◌, ◌≢◌, refl, sym, ◌∙◌, ap, ◌⊎◌, inl, inr, some, arith, subst, true,
  false, Bool-cases, lt→ltb, Word,
}
use linux.Kernel.Task.{Task, TaskState, Sys, nr_tasks, sigalrm}
use linux.Kernel.Sched.Defs.{ring_alarm, wake_sleeper, event_sync, tick, before, word_mod}

-- The time that a tick makes it.
abbrev pub now_after : Sys → ℕ
now_after s = (s.jiffies + 1) % word_mod

-- Every slot but the write-back task's gets its alarm first and its deadline second.
tick_at :
    (s : Sys) (i : ℕ)
    → i < nr_tasks - 1
    → (tick s).task i
      ≡ Option.map
          (λ t. wake_sleeper (now_after s) (s.sleep_deadline i) (ring_alarm (now_after s) t))
          (s.task i)
unfolding tick event_sync
tick_at s i h = elim (Bool-cases (before (now_after s) s.next_sync)) [
  | inl e ↦ rw (e, lt→ltb i nr_tasks (omega arith)) refl
  | inr e ↦ rw (e, lt→ltb i nr_tasks (omega arith)) (ground arith)
]

ring_alarm_due :
    (now : ℕ) (t : Task)
    → t.alarm ≢ 0
    → t.alarm ≤ now
    → ((ring_alarm now t).signal sigalrm ≡ true)
      × ((ring_alarm now t).alarm ≡ 0)
      × (t.state ≡ TaskState.interruptible → (ring_alarm now t).state ≡ TaskState.running)
unfolding ring_alarm
ring_alarm_due now t a b = (ground arith, ground arith, λ q. ground (arith, q))

ring_alarm_not_due : (now : ℕ) (t : Task) → (t.alarm ≡ 0) ⊎ (now < t.alarm) → ring_alarm now t ≡ t
unfolding ring_alarm
ring_alarm_not_due now t (inl e) = rw e refl
ring_alarm_not_due now t (inr e) = ground arith

wake_sleeper_keeps :
    (now d : ℕ) (t : Task)
    → ((wake_sleeper now d t).signal ≡ t.signal)
      × ((wake_sleeper now d t).alarm ≡ t.alarm)
      × (t.state ≡ TaskState.running → (wake_sleeper now d t).state ≡ TaskState.running)
unfolding wake_sleeper
wake_sleeper_keeps now d t = (ground arith, ground arith, λ q. ground (arith, q))

wake_sleeper_not_due :
    (now d : ℕ) (t : Task) → (d ≡ 0) ⊎ (before now d ≡ true) → wake_sleeper now d t ≡ t
unfolding wake_sleeper
wake_sleeper_not_due now d t (inl e) = rw e refl
wake_sleeper_not_due now d t (inr e) = ground arith

wake_sleeper_due :
    (now d : ℕ) (t : Task)
    → d ≢ 0
    → before now d ≡ false
    → (t.state ≡ TaskState.interruptible) ⊎ (t.state ≡ TaskState.uninterruptible)
    → (wake_sleeper now d t).state ≡ TaskState.running
unfolding wake_sleeper
wake_sleeper_due now d t h e (inl q) = ground arith
wake_sleeper_due now d t h e (inr q) = ground arith

ring_alarm-sleeping :
    (now : ℕ) (t : Task)
    → (t.state ≡ TaskState.interruptible) ⊎ (t.state ≡ TaskState.uninterruptible)
    → ((ring_alarm now t).state ≡ TaskState.running) ⊎ ((ring_alarm now t).state ≡ t.state)
unfolding ring_alarm
ring_alarm-sleeping now t q = ground arith

-- A task whose alarm is due has SIGALRM pending after the tick and no alarm left, and it runs if
-- it slept interruptibly. The write-back task's slot is left out.
pub tick-alarm :
    (s : Sys) (i : ℕ) (t : Task)
    → i < nr_tasks - 1
    → s.task i ≡ some t
    → t.alarm ≢ 0
    → t.alarm ≤ now_after s
    → (t' : Task) × ((tick s).task i ≡ some t')
      × (t'.signal sigalrm ≡ true)
      × (t'.alarm ≡ 0)
      × (t.state ≡ TaskState.interruptible → t'.state ≡ TaskState.running)
tick-alarm s i t h e a b =
    let r = ring_alarm_due (now_after s) t a b in
    let w = wake_sleeper_keeps (now_after s) (s.sleep_deadline i) (ring_alarm (now_after s) t) in
    (
      wake_sleeper (now_after s) (s.sleep_deadline i) (ring_alarm (now_after s) t),
      tick_at s i h ∙ ap (Option.map _) e,
      ap (λ (w : Word). w sigalrm) w.0 ∙ r.0,
      w.1 ∙ r.1,
      λ q. w.2 (r.2 q),
    )

-- A task with no alarm and no deadline due goes through the tick unchanged, except in the
-- write-back task's slot.
pub tick_idle :
    (s : Sys) (i : ℕ) (t : Task)
    → i < nr_tasks - 1
    → s.task i ≡ some t
    → (t.alarm ≡ 0) ⊎ (now_after s < t.alarm)
    → (s.sleep_deadline i ≡ 0) ⊎ (before (now_after s) (s.sleep_deadline i) ≡ true)
    → (tick s).task i ≡ some t
tick_idle s i t h e a d =
    tick_at s i h
    ∙ ap (Option.map _) e
    ∙ ap (λ (u : Task). some (wake_sleeper (now_after s) (s.sleep_deadline i) u))
        (ring_alarm_not_due (now_after s) t a)
    ∙ ap (λ (u : Task). some u) (wake_sleeper_not_due (now_after s) (s.sleep_deadline i) t d)

-- A task that sleeps with a deadline is runnable after the tick that reaches the deadline, whatever
-- kind of sleep it is in.
pub tick-deadline :
    (s : Sys) (i : ℕ) (t : Task)
    → i < nr_tasks - 1
    → s.task i ≡ some t
    → s.sleep_deadline i ≢ 0
    → before (now_after s) (s.sleep_deadline i) ≡ false
    → (t.state ≡ TaskState.interruptible) ⊎ (t.state ≡ TaskState.uninterruptible)
    → (t' : Task) × ((tick s).task i ≡ some t') × (t'.state ≡ TaskState.running)
tick-deadline s i t h e d b q = (
  wake_sleeper (now_after s) (s.sleep_deadline i) u,
  tick_at s i h ∙ ap (Option.map _) e,
  go (ring_alarm-sleeping (now_after s) t q),
)
  where
    u : Task
    u = ring_alarm (now_after s) t

    go :
        (u.state ≡ TaskState.running) ⊎ (u.state ≡ t.state)
        → (wake_sleeper (now_after s) (s.sleep_deadline i) u).state ≡ TaskState.running
    go (inl r) = (wake_sleeper_keeps (now_after s) (s.sleep_deadline i) u).2 r
    go (inr r) = wake_sleeper_due (now_after s) (s.sleep_deadline i) u d b (
        subst (λ (k : TaskState). (k ≡ TaskState.interruptible) ⊎ (k ≡ TaskState.uninterruptible))
          (sym r) q)
