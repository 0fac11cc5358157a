-- ===== src/Kernel/Wait/Outcomes.antt =====
-- What each outcome of sys_waitpid() says of the task table.
use linux.Base.{
  ℕ, zero, suc, ◌+◌, ◌-◌, ◌≤◌, ◌<◌, ◌≡◌, ◌≢◌, refl, sym, ◌∙◌, ◌⊎◌, inl, inr, Bool, true, false,
  ◌||◌, Option, none, some, ◌∷◌, arith, ◌==◌, update, Bool-cases, subst, ap,
}
use native.Mathlib.Decide.{ℕ_discrete}
use linux.Kernel.Task.{Task, TaskState, TaskTable, Sys, is_zombie, nr_tasks, sig_ign, sigchld}
use linux.Kernel.Wait.Defs.{
  Seen, ready, finished, can_reap, is_child, stops_at, look, Wait, reaped, failed, not_yet, asleep,
  answer, sleep, sys_waitpid,
}

-- No wanted child in the slots from `lo` to below `hi` is a zombie.
abbrev pub NoneReady : ℕ → Option ℕ → TaskTable → ℕ → ℕ → Type 0
NoneReady me wanted table lo hi =
    (j : ℕ) (p : Task) → lo ≤ j → j < hi → table j ≡ some p → can_reap me wanted p ≡ false

-- What a scan of `n` slots from `i` on says.
abbrev pub Says : ℕ → Option ℕ → TaskTable → ℕ → ℕ → Bool → Seen → Type 0
Says me wanted table i n seen (ready j p) =
    (i ≤ j)
    × (j < i + n)
    × (table j ≡ some p)
    × (can_reap me wanted p ≡ true)
    × NoneReady me wanted table i j
Says me wanted table i n seen (finished any) =
    NoneReady me wanted table i (i + n)
    × ((any ≡ false)
        → (seen ≡ false) × ((j : ℕ) → i ≤ j → j < i + n → is_child me (table j) ≡ false))
    × ((any ≡ true)
        → (seen ≡ true) ⊎ ((j : ℕ) × (i ≤ j) × (j < i + n) × (is_child me (table j) ≡ true)))

-- One more slot in front, where the scan did not stop.
NoneReady-suc :
    (me : ℕ) (wanted : Option ℕ) (table : TaskTable) (i hi : ℕ) (o : Option Task)
    → table i ≡ o
    → ((p : Task) → o ≡ some p → can_reap me wanted p ≡ false)
    → NoneReady me wanted table (i + 1) hi
    → NoneReady me wanted table i hi
NoneReady-suc me wanted table i hi o e h r j p a b q = elim (ℕ_discrete i j) [
  | yes s ↦ h p (sym e ∙ subst (λ k. table k ≡ some p) (sym s) q)
  | no s ↦ r j p (omega arith) b q
]

Says-suc :
    (me : ℕ) (wanted : Option ℕ) (table : TaskTable) (i n : ℕ) (seen : Bool) (o : Option Task)
    (f : Seen)
    → table i ≡ o
    → ((p : Task) → o ≡ some p → can_reap me wanted p ≡ false)
    → Says me wanted table (i + 1) n (seen || is_child me o) f
    → Says me wanted table i (suc n) seen f
Says-suc me wanted table i n seen o (ready j p) e h (a, b, q, c, r) =
    (omega arith, omega arith, q, c, NoneReady-suc me wanted table i j o e h r)
Says-suc me wanted table i n seen o (finished any) e h (r, no_child, some_child) = (
  λ j p a b q. NoneReady-suc me wanted table i (i + 1 + n) o e h r j p a (omega arith) q,
  λ z.
      let w = no_child z in
      (
        ground (arith, w.0),
        λ j a b. elim (ℕ_discrete i j) [
          | yes s ↦ subst (λ k. is_child me (table k) ≡ false) s (rw e (ground (arith, w.0)))
          | no s ↦ w.1 j (omega arith) (omega arith)
        ],
      ),
  λ z. elim (some_child z) [
    | inr (j, a, b, c) ↦ inr (j, omega arith, omega arith, c)
    | inl w ↦ elim (Bool-cases seen) [
      | inl b ↦ inl b
      | inr b ↦ inr (i, omega arith, omega arith, rw e (ground (arith, w, b)))
    ]
  ],
)

stops_at-Says :
    (me : ℕ) (wanted : Option ℕ) (table : TaskTable) (i n : ℕ) (seen : Bool) (o : Option Task)
    (f : Seen)
    → table i ≡ o
    → Says me wanted table (i + 1) n (seen || is_child me o) f
    → Says me wanted table i (suc n) seen (stops_at me wanted i o f)
stops_at-Says me wanted table i n seen none f e r =
    Says-suc me wanted table i n seen none f e (λ p q. cc) r
stops_at-Says me wanted table i n seen (some p) f e r = elim (Bool-cases (can_reap me wanted p)) [
  | inl b ↦ rw b (omega arith, omega arith, e, b, λ j u x y. absurd (omega arith))
  | inr b ↦ rw b (Says-suc me wanted table i n seen (some p) f e (λ u q. same u q b) r)
]
  where
    same :
        (u : Task) → some p ≡ some u → can_reap me wanted p ≡ false → can_reap me wanted u ≡ false
    same u q b = let r : p ≡ u = cc in subst (λ (v : Task). can_reap me wanted v ≡ false) r b

look-Says :
    (n me : ℕ) (wanted : Option ℕ) (table : TaskTable) (i : ℕ) (seen : Bool)
    → Says me wanted table i n seen (look n me wanted table i seen)
unfolding look
look-Says zero me wanted table i seen =
    (λ j p a b. absurd (omega arith), λ z. (z, λ j a b. absurd (omega arith)), λ z. inl z)
look-Says (suc n) me wanted table i seen =
    stops_at-Says me wanted table i n seen (table i)
      (look n me wanted table (i + 1) (seen || is_child me (table i))) refl
      (look-Says n me wanted table (i + 1) (seen || is_child me (table i)))

-- A zombie child of the task in slot `me`, with the pid that is wanted, if one is.
pub record Ready (me : ℕ) (wanted : Option ℕ) (p : Task) : Type 0 where
  pub child : p.parent ≡ me
  pub zombie : p.state ≡ TaskState.zombie
  pub asked_for : (pid : ℕ) → wanted ≡ some pid → p.pid ≡ pid

zombie_state : (st : TaskState) → is_zombie st ≡ true → st ≡ TaskState.zombie
zombie_state st e = ground arith

can_reap-Ready :
    (me : ℕ) (wanted : Option ℕ) (p : Task) → can_reap me wanted p ≡ true → Ready me wanted p
can_reap-Ready me none p e = record {
  child = ground arith;
  zombie = zombie_state p.state (ground arith);
  asked_for = (λ pid q. cc);
}
can_reap-Ready me (some n) p e = record {
  child = ground arith;
  zombie = zombie_state p.state (ground arith);
  asked_for = (λ pid q. ground arith);
}

Ready-can_reap :
    (me : ℕ) (wanted : Option ℕ) (p : Task) → Ready me wanted p → can_reap me wanted p ≡ true
Ready-can_reap me none p r = ground (arith, r.child, r.zombie)
Ready-can_reap me (some n) p r = ground (arith, r.child, r.zombie, r.asked_for n refl)

-- No slot from `lo` to below `hi` holds such a child.
abbrev pub NobodyReady : ℕ → Option ℕ → TaskTable → ℕ → ℕ → Type 0
NobodyReady me wanted table lo hi =
    (j : ℕ) (p : Task) → lo ≤ j → j < hi → table j ≡ some p → ¬ Ready me wanted p

NoneReady-NobodyReady :
    (me : ℕ) (wanted : Option ℕ) (table : TaskTable) (lo hi : ℕ)
    → NoneReady me wanted table lo hi
    → NobodyReady me wanted table lo hi
NoneReady-NobodyReady me wanted table lo hi h j p a b e r =
    let yes_it_is = Ready-can_reap me wanted p r in let no_it_is = h j p a b e in cc

-- A slot from 1 on holds a child of `me`.
abbrev pub HasChild : ℕ → TaskTable → Type 0
HasChild me table =
    (j : ℕ) × (p : Task) × (1 ≤ j) × (j < nr_tasks) × (table j ≡ some p) × (p.parent ≡ me)

child_there :
    (me j : ℕ) (table : TaskTable) (o : Option Task)
    → table j ≡ o
    → 1 ≤ j
    → j < nr_tasks
    → is_child me o ≡ true
    → HasChild me table
child_there me j table none e a b c = absurd (cc)
child_there me j table (some p) e a b c = (j, p, a, b, e, ground arith)

-- What sys_waitpid() may end in, for a caller that does not ignore SIGCHLD.
abbrev pub Ends : ℕ → Option ℕ → Bool → Task → Sys → Wait → Type 0
Ends me wanted no_hang t s (reaped pid code s') =
    (i : ℕ) × (z : Task) × (1 ≤ i)
    × (i < nr_tasks)
    × (s.task i ≡ some z)
    × Ready me wanted z
    × NobodyReady me wanted s.task 1 i
    × (pid ≡ z.pid)
    × (code ≡ z.exit_code)
    × (s' ≡ record s { task = update s.task i none; freed = z.page ∷ s.freed })
Ends me wanted no_hang t s failed =
    (j : ℕ) (p : Task) → 1 ≤ j → j < nr_tasks → s.task j ≡ some p → p.parent ≢ me
Ends me wanted no_hang t s not_yet =
    (no_hang ≡ true) × HasChild me s.task × NobodyReady me wanted s.task 1 nr_tasks
Ends me wanted no_hang t s (asleep s') =
    (no_hang ≡ false)
    × HasChild me s.task
    × NobodyReady me wanted s.task 1 nr_tasks
    × (s' ≡ record s { task = update s.task me (some (sleep t)) })

answer-Ends :
    (me : ℕ) (wanted : Option ℕ) (no_hang : Bool) (t : Task) (s : Sys) (f : Seen)
    → Says me wanted s.task 1 (nr_tasks - 1) false f
    → Ends me wanted no_hang t s (answer me no_hang t s f)
answer-Ends me wanted no_hang t s (ready i p) (a, b, e, c, r) = (
  i,
  p,
  a,
  omega arith,
  e,
  can_reap-Ready me wanted p c,
  NoneReady-NobodyReady me wanted s.task 1 i r,
  refl,
  refl,
  refl,
)
answer-Ends me wanted no_hang t s (finished false) (r, n, y) = λ j p a b e q.
    let no_child = (n refl).1 j a (omega arith) in
    let other : p.parent == me ≡ false = ap (is_child me) (sym e) ∙ no_child in ground arith
answer-Ends me wanted no_hang t s (finished true) (r, n, y) = elim (y refl) [
  | inl w ↦ absurd (cc)
  | inr (j, a, b, c) ↦ elim (Bool-cases no_hang) [
    | inl h ↦ rw h (refl, child_there me j s.task (s.task j) refl a (omega arith) c, nobody r)
    | inr h ↦ rw h (refl, child_there me j s.task (s.task j) refl a (omega arith) c, nobody r, refl)
  ]
]
  where
    nobody :
        NoneReady me wanted s.task 1 (1 + (nr_tasks - 1)) → NobodyReady me wanted s.task 1 nr_tasks
    nobody = NoneReady-NobodyReady me wanted s.task 1 nr_tasks

-- sys_waitpid() of a caller that does not ignore SIGCHLD. If it reaps, it takes the child of
-- the lowest slot that is a zombie and has the wanted pid, returns its pid and exit code, empties its slot and frees its
-- page. If it fails, the caller has no child at all. If it returns 0, WNOHANG is set, and if it
-- sleeps it is not: there is a child then, wanted or not, and no wanted one is a zombie.
pub waitpid_lem :
    (me : ℕ) (wanted : Option ℕ) (no_hang : Bool) (t : Task) (s : Sys)
    → t.handlers sigchld ≢ sig_ign
    → Ends me wanted no_hang t s (sys_waitpid me wanted no_hang t s)
unfolding sys_waitpid
waitpid_lem me wanted no_hang t s h =
    let b : t.handlers sigchld == sig_ign ≡ false = ground arith in
    rw b (
      answer-Ends me wanted no_hang t s (look (nr_tasks - 1) me wanted s.task 1 false)
        (look-Says (nr_tasks - 1) me wanted s.task 1 false))

-- Waiting for a pid that is no child does not fail as long as the caller has some other child: with
-- WNOHANG the result is 0.
pub waitpid_stranger :
    (me pid : ℕ) (t : Task) (s : Sys)
    → t.handlers sigchld ≢ sig_ign
    → HasChild me s.task
    → ((j : ℕ) (p : Task) → s.task j ≡ some p → p.parent ≡ me → p.pid ≢ pid)
    → sys_waitpid me (some pid) true t s ≡ not_yet
waitpid_stranger me pid t s h c n =
    go (sys_waitpid me (some pid) true t s) refl (waitpid_lem me (some pid) true t s h)
  where
    go :
        (w : Wait)
        → sys_waitpid me (some pid) true t s ≡ w
        → Ends me (some pid) true t s w
        → w ≡ not_yet
    go (reaped p code s') e (i, z, a, b, q, k, r, u, v, w) =
        absurd (n i z q k.child (k.asked_for pid refl))
    go failed e f = absurd (f c.0 c.1 c.2 c.3 c.4 c.5)
    go not_yet e f = refl
    go (asleep s') e (b, x, y, z) = absurd (cc)
