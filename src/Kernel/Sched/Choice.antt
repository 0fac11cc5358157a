-- ===== src/Kernel/Sched/Choice.antt =====
-- The loop of schedule() ends, and what it chooses.

use linux.Base.{
  ℕ, zero, suc, ◌≤◌, ◌<◌, ◌≡◌, refl, ◌⊎◌, inl, inr, Option, none, some, arith, subst, lt→ltb, ◌^◌,
}
use linux.Kernel.Task.{Task, TaskTable, nr_tasks}
use linux.Kernel.Sched.Defs.{Best, pick, recharge, charge, settle, select_task, chosen, idle}
use linux.Kernel.Sched.Pick.{Runnable, Beaten, Attained, pick_lem}

-- Slot `i` holds a runnable task with time left, and no runnable task has more.
abbrev pub Deserves : TaskTable → ℕ → Type 0
Deserves table i =
    (t : Task) × (i < nr_tasks)
    × Runnable table i t
    × (0 < t.counter)
    × ((j : ℕ) (u : Task) → j < nr_tasks → Runnable table j u → u.counter ≤ t.counter)

abbrev pub NobodyRuns : TaskTable → Type 0
NobodyRuns table = (j : ℕ) (u : Task) → j < nr_tasks → Runnable table j u → ⊥

-- Every priority is positive and at most 2^30, and every counter is not negative.
abbrev pub HasPriorities : TaskTable → Type 0
HasPriorities table =
    (j : ℕ) (u : Task)
    → j < nr_tasks
    → table j ≡ some u
    → (0 < u.priority) × (u.priority ≤ 2 ^ 30) × (u.counter < 2 ^ 31)

-- No counter is negative.
abbrev Counted : TaskTable → Type 0
Counted table = (j : ℕ) (u : Task) → j < nr_tasks → table j ≡ some u → u.counter < 2 ^ 31

-- What a table's best candidate says of the table.
best-Deserves :
    (table : TaskTable) (c i : ℕ)
    → Counted table
    → pick table nr_tasks none ≡ some (suc c, i)
    → Deserves table i
best-Deserves table c i q e =
    let a : Attained table 0 (some (suc c, i)) = subst (Attained table 0) e (pick_lem table).0 in
    (
      a.0,
      a.2,
      a.3,
      omega (arith, a.4),
      λ j u h r.
          let b : Beaten (some (suc c, i)) j u =
            subst (λ (k : Best). Beaten k j u) e ((pick_lem table).1 j u h r (q j u h r.0)) in
          omega (arith, a.4, b),
    )

none-NobodyRuns :
    (table : TaskTable) → Counted table → pick table nr_tasks none ≡ none → NobodyRuns table
none-NobodyRuns table q e j u h r =
    subst (λ (k : Best). Beaten k j u) e ((pick_lem table).1 j u h r (q j u h r.0))

recharge-none :
    (table : TaskTable) (i : ℕ) → i < nr_tasks → table i ≡ none → recharge table i ≡ none
unfolding recharge
recharge-none table i h e = rw (lt→ltb i nr_tasks h, e)

recharge_at :
    (table : TaskTable) (i : ℕ) (t : Task)
    → i < nr_tasks
    → table i ≡ some t
    → recharge table i ≡ some (charge t)
unfolding recharge
recharge_at table i t h e = rw (lt→ltb i nr_tasks h, e)

charge_grows :
    (t : Task)
    → 0 < t.priority
    → t.priority ≤ 2 ^ 30
    → t.counter < 2 ^ 31
    → (0 < (charge t).counter) × ((charge t).counter < 2 ^ 31)
charge_grows t a b c = (ground arith, ground arith)

-- A recharge makes no counter negative.
recharge-Counted : (table : TaskTable) → HasPriorities table → Counted (recharge table)
recharge-Counted table p j u h e = go (table j) refl
  where
    go : (o : Option Task) → table j ≡ o → u.counter < 2 ^ 31
    go none f = absurd (none_stays f)
      where
        none_stays : table j ≡ none → ⊥
        none_stays f = let q = recharge-none table j h f in cc
    go (some t) f =
        let (a, b, c) = p j t h f in
        let same : charge t ≡ u = let q = recharge_at table j t h f in cc in
        subst (λ (v : Task). v.counter < 2 ^ 31) same (charge_grows t a b c).1

-- After a recharge a runnable task has time left, so the best candidate has.
recharged :
    (table : TaskTable) (i : ℕ) (t : Task)
    → HasPriorities table
    → i < nr_tasks
    → Runnable table i t
    → (c : ℕ) × (k : ℕ) × (pick (recharge table) nr_tasks none ≡ some (suc c, k))
recharged table i t p h r = go (pick (recharge table) nr_tasks none) refl
  where
    run : Runnable (recharge table) i (charge t)
    run = (recharge_at table i t h r.0, r.1)

    beaten : Beaten (pick (recharge table) nr_tasks none) i (charge t)
    beaten =
        (pick_lem (recharge table)).1 i (charge t) h run
          (recharge-Counted table p i (charge t) h run.0)

    go :
        (b : Best)
        → pick (recharge table) nr_tasks none ≡ b
        → (c : ℕ) × (k : ℕ) × (pick (recharge table) nr_tasks none ≡ some (suc c, k))
    go none e = absurd (subst (λ (k : Best). Beaten k i (charge t)) e beaten)
    go (some (zero, k)) e =
        let b : Beaten (some (zero, k)) i (charge t) =
          subst (λ (q : Best). Beaten q i (charge t)) e beaten in
        let (x, y, z) = p i t h r.0 in absurd (omega (arith, b, (charge_grows t x y z).0))
    go (some (suc c, k)) e = (c, k, e)

-- If every task has a positive priority of at most 2^30 and a counter that is not negative, two
-- rounds of schedule()'s loop are enough. It either
-- finds a runnable task with time left that no runnable task exceeds, in the table as it was or
-- recharged once, or finds that nobody is runnable, recharges and halts.
pub select_task_lem :
    (table : TaskTable)
    → HasPriorities table
    → ((i : ℕ) × (table' : TaskTable) × (select_task 2 table ≡ some (chosen i table'))
        × ((table' ≡ table) ⊎ (table' ≡ recharge table))
        × Deserves table' i)
      ⊎ ((select_task 2 table ≡ some (idle (recharge table))) × NobodyRuns table)
unfolding select_task settle
select_task_lem table p = go (pick table nr_tasks none) refl
  where
    counted : Counted table
    counted j u h e = (p j u h e).2

    go :
        (b : Best)
        → pick table nr_tasks none ≡ b
        → ((i : ℕ) × (table' : TaskTable) × (select_task 2 table ≡ some (chosen i table'))
            × ((table' ≡ table) ⊎ (table' ≡ recharge table))
            × Deserves table' i)
          ⊎ ((select_task 2 table ≡ some (idle (recharge table))) × NobodyRuns table)
    go none e = inr (rw (e, settle), none-NobodyRuns table counted e)
    go (some (suc c, i)) e =
        inl (i, table, rw (e, settle), inl refl, best-Deserves table c i counted e)
    go (some (zero, i)) e =
        let a : Attained table 0 (some (zero, i)) = subst (Attained table 0) e (pick_lem table).0 in
        let r = recharged table i a.0 p a.2 a.3 in
        inl (
          r.1,
          recharge table,
          rw (e, settle, r.2),
          inr refl,
          best-Deserves (recharge table) r.0 r.1 (recharge-Counted table p) r.2,
        )
