-- ===== src/Kernel/Sched/Pick.antt =====
-- Which task the selection loop of schedule() takes.
use linux.Base.{
  ℕ, zero, suc, ◌≤◌, ◌<◌, ◌^◌, ◌≡◌, refl, ◌∙◌, sym, ◌⊎◌, inl, inr, true, Option, none, some, arith,
  ap, ltb, leb, not, ◌&&◌, Bool-cases, subst,
}
use native.Mathlib.Decide.{dec_lt}
use linux.Kernel.Task.{Task, TaskTable, nr_tasks, is_running}
use linux.Kernel.Sched.Defs.{Best, consider, pick}

-- A task that may be selected at slot `i`.
abbrev pub Runnable : TaskTable → ℕ → Task → Type 0
Runnable table i t = (table i ≡ some t) × (is_running t.state ≡ true)

-- The candidate has a larger counter than the task `u` of slot `j`, or as large a one and a slot
-- that is not lower.
abbrev pub Beaten : Best → ℕ → Task → Type 0
Beaten none j u = ⊥
Beaten (some (c, i)) j u = (u.counter < c) ⊎ ((u.counter ≡ c) × (j ≤ i))

-- The candidate is a runnable task of the slots from `lo` on.
abbrev pub Attained : TaskTable → ℕ → Best → Type 0
Attained table lo none = Unit {0}
Attained table lo (some (c, i)) =
    (t : Task) × (lo ≤ i) × (i < nr_tasks) × Runnable table i t × (t.counter ≡ c)

consider-Attained :
    (table : TaskTable) (i : ℕ) (o : Option Task) (best : Best)
    → i < nr_tasks
    → table i ≡ o
    → Attained table (suc i) best
    → Attained table i (consider i o best)
unfolding consider
consider-Attained table i none none h e a = tt
consider-Attained table i none (some (c, k)) h e (t, l, u, r, q) = (t, omega arith, u, r, q)
consider-Attained table i (some t) none h e a =
    elim (Bool-cases (is_running t.state && not (leb (2 ^ 31) t.counter))) [
      | inl r ↦ rw r (t, omega arith, h, (e, ground arith), refl)
      | inr r ↦ rw r tt
    ]
consider-Attained table i (some t) (some (c, k)) h e (w, l, u, r, q) =
    elim (Bool-cases (is_running t.state && (not (leb (2 ^ 31) t.counter) && ltb c t.counter))) [
      | inl b ↦ rw b (t, omega arith, h, (e, ground arith), refl)
      | inr b ↦ rw b (w, omega arith, u, r, q)
    ]

-- A task that was beaten stays beaten by the new candidate.
consider-Beaten :
    (i : ℕ) (o : Option Task) (best : Best) (j : ℕ) (u : Task)
    → Beaten best j u
    → Beaten (consider i o best) j u
unfolding consider
consider-Beaten i none best j u b = b
consider-Beaten i (some t) none j u b = absurd b
consider-Beaten i (some t) (some (c, k)) j u b =
    elim (Bool-cases (is_running t.state && (not (leb (2 ^ 31) t.counter) && ltb c t.counter))) [
      | inl e ↦ rw e (ground arith)
      | inr e ↦ rw e b
    ]

-- A runnable task is beaten by the candidate that results from its own round.
consider-Beaten_self :
    (table : TaskTable) (i : ℕ) (best : Best) (u : Task)
    → Attained table (suc i) best
    → is_running u.state ≡ true
    → u.counter < 2 ^ 31
    → Beaten (consider i (some u) best) i u
unfolding consider
consider-Beaten_self table i none u a r p =
    let shown : is_running u.state && not (leb (2 ^ 31) u.counter) ≡ true = ground arith in
    rw shown (inr (refl, omega arith))
consider-Beaten_self table i (some (c, k)) u (t, l, _, _, _) r p =
    elim (Bool-cases (is_running u.state && (not (leb (2 ^ 31) u.counter) && ltb c u.counter))) [
      | inl e ↦ rw e (inr (refl, omega arith))
      | inr e ↦ rw e (ground arith)
    ]

-- The scan over the slots below `lo`, from a candidate that beats the slots above.
pick-Attained :
    (table : TaskTable) (lo : ℕ) (best : Best)
    → lo ≤ nr_tasks
    → Attained table lo best
    → Attained table 0 (pick table lo best)
unfolding pick
pick-Attained table zero best h a = a
pick-Attained table (suc i) best h a =
    pick-Attained table i _ (omega arith) (consider-Attained table i (table i) best h refl a)

pick-keeps_Beaten :
    (table : TaskTable) (lo : ℕ) (best : Best) (j : ℕ) (u : Task)
    → Beaten best j u
    → Beaten (pick table lo best) j u
unfolding pick
pick-keeps_Beaten table zero best j u b = b
pick-keeps_Beaten table (suc i) best j u b =
    pick-keeps_Beaten table i _ j u (consider-Beaten i (table i) best j u b)

pick-Beaten_below :
    (table : TaskTable) (lo : ℕ) (best : Best) (j : ℕ) (u : Task)
    → lo ≤ nr_tasks
    → Attained table lo best
    → j < lo
    → Runnable table j u
    → u.counter < 2 ^ 31
    → Beaten (pick table lo best) j u
unfolding pick
pick-Beaten_below table zero best j u h a lt r p = elim lt [ ]
pick-Beaten_below table (suc i) best j u h a lt r p = elim (dec_lt j i) [
  | yes below ↦
      pick-Beaten_below table i _ j u (omega arith)
        (consider-Attained table i (table i) best h refl a) below r p
  | no above ↦
      let e : j ≡ i = omega arith in
      pick-keeps_Beaten table i _ j u (
        subst (λ k. Beaten (consider i (table i) best) k u) (sym e)
          (subst (λ o. Beaten (consider i o best) i u) (sym (ap table (sym e) ∙ r.0))
            (consider-Beaten_self table i best u a r.1 p)))
]

-- The scan takes a runnable task if there is one whose counter is not negative: no such task has a larger counter, and among
-- equal counters it takes the highest slot. It finds nobody exactly when there is none.
pub pick_lem :
    (table : TaskTable)
    → Attained table 0 (pick table nr_tasks none)
      × ((j : ℕ) (u : Task)
          → j < nr_tasks
          → Runnable table j u
          → u.counter < 2 ^ 31
          → Beaten (pick table nr_tasks none) j u)
pick_lem table = (
  pick-Attained table nr_tasks none (omega arith) tt,
  λ j u h r p. pick-Beaten_below table nr_tasks none j u (omega arith) tt h r p,
)
