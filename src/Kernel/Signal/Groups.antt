-- ===== src/Kernel/Signal/Groups.antt =====
-- Whom sys_kill() reaches.

use linux.Base.{
  ℕ, zero, suc, ◌≤◌, ◌<◌, ◌≡◌, ◌≢◌, refl, ◌⊎◌, ◌↔◌, inl, inr, true, false, Option, none, some,
  arith, leb, Bool-cases, lt→ltb, ==_iff,
}
use native.Mathlib.Decide.{ℕ_discrete}
use linux.Kernel.Task.{Task, TaskState, TaskTable, nr_tasks}
use linux.Kernel.Signal.Kill.{one, group, post, in_group, any_in_group, sys_kill}

-- The post sets the signal's bit, keeps the others, and wakes an interruptible sleeper.
pub post_lem :
    (sig : ℕ) (t : Task)
    → ((post sig t).signal sig ≡ true)
      × ((k : ℕ) → sig ≢ k → (post sig t).signal k ≡ t.signal k)
      × (t.state ≡ TaskState.interruptible → (post sig t).state ≡ TaskState.running)
unfolding post
post_lem sig t = (ground arith, λ k d. ground (arith, d), λ e. ground (arith, e))

any_in_group_intro :
    (n g i : ℕ) (table : TaskTable) (t : Task)
    → i < n
    → table i ≡ some t
    → t.pgrp ≡ g
    → any_in_group n g table ≡ true
unfolding any_in_group
any_in_group_intro zero g i table t l e q = elim l [ ]
any_in_group_intro (suc n) g i table t l e q = elim (ℕ_discrete i n) [
  | yes s ↦ rw (← s, e, (==_iff t.pgrp g).1 q) refl
  | no s ↦ rw (any_in_group_intro n g i table t (omega arith) e q) (ground arith)
]

-- A task among the first `n` slots that is in the group.
abbrev pub Member : ℕ → ℕ → TaskTable → Type 0
Member n g table = (i : ℕ) × (t : Task) × (i < n) × (table i ≡ some t) × (t.pgrp ≡ g)

in_group_member :
    (g : ℕ) (o : Option Task) → in_group g o ≡ true → (t : Task) × (o ≡ some t) × (t.pgrp ≡ g)
in_group_member g none e = cc
in_group_member g (some t) e = (t, refl, (==_iff t.pgrp g).0 e)

any_in_group_elim : (n g : ℕ) (table : TaskTable) → any_in_group n g table ≡ true → Member n g table
unfolding any_in_group
any_in_group_elim zero g table e = cc
any_in_group_elim (suc n) g table e = elim (Bool-cases (in_group g (table n))) [
  | inl b ↦ let m = in_group_member g (table n) b in (n, m.0, omega arith, m.1, m.2)
  | inr b ↦
      let r = any_in_group_elim n g table (ground (arith, b)) in
      (r.0, r.1, omega (arith, r.2), r.3, r.4)
]

-- A signal to a process group reaches every task of the group and no other. The result is 0
-- exactly when the group has a task.
pub kill_group :
    (g n : ℕ) (table : TaskTable)
    → suc n < 32
    → let r = sys_kill (group g) (suc n) table in
      ((r.0 ≡ true) ↔ Member nr_tasks g table)
      × ((i : ℕ) (t : Task)
          → i < nr_tasks
          → table i ≡ some t
          → t.pgrp ≡ g
          → r.1 i ≡ some (post (suc n) t))
      × ((i : ℕ) (t : Task) → table i ≡ some t → t.pgrp ≢ g → r.1 i ≡ some t)
      × ((i : ℕ) → table i ≡ none → r.1 i ≡ none)
unfolding sys_kill
kill_group g n table h =
    let e : leb 32 (suc n) ≡ false = ground arith in
    rw e (
      (
        any_in_group_elim nr_tasks g table,
        λ m. any_in_group_intro nr_tasks g m.0 table m.1 m.2 m.3 m.4,
      ),
      λ i t l q p. rw (q, lt→ltb i nr_tasks l, (==_iff t.pgrp g).1 p) refl,
      λ i t q p. rw q (ground arith),
      λ i q. rw q (ground arith),
    )

-- A signal to one task: the result is 0 exactly when the slot holds a task, which gets the signal,
-- and every other slot stays as it is. Slots beyond the table are refused.
pub kill_one :
    (pid n : ℕ) (table : TaskTable)
    → suc n < 32
    → let r = sys_kill (one pid) (suc n) table in
      ((t : Task)
        → pid < nr_tasks
        → table pid ≡ some t
        → (r.0 ≡ true) × (r.1 pid ≡ some (post (suc n) t)))
      × ((table pid ≡ none) ⊎ (nr_tasks ≤ pid) → r.0 ≡ false)
      × ((i : ℕ) → pid ≢ i → r.1 i ≡ table i)
unfolding sys_kill
kill_one pid n table h =
    let e : leb 32 (suc n) ≡ false = ground arith in
    rw e (
      λ t l q. let b : leb nr_tasks pid ≡ false = ground arith in rw (b, q) (refl, ground arith),
      λ k. elim (Bool-cases (leb nr_tasks pid)) [
        | inl b ↦ rw b refl
        | inr b ↦ rw b (elim k [ inl q ↦ rw q refl | inr l ↦ absurd (ground arith) ])
      ],
      λ i d. ground (arith, d),
    )
