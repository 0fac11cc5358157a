-- ===== src/Kernel/Identity/Rights.antt =====
-- What a task can make of its ids, and of a priority by nice().
use linux.Base.{
  ℕ, ◌<◌, ◌≡◌, ◌≢◌, refl, sym, ◌∙◌, ◌⊎◌, inl, inr, true, false, ◌||◌, Option, none, some, List, [],
  ◌∷◌, arith, ◌==◌, update, Bool-cases, subst,
}
use linux.Kernel.Task.{Task, TaskTable, nr_tasks}
use linux.Kernel.Identity.Defs.{sys_setuid, sys_setgid, sys_nice, Increment, less, more, short}

-- A call of sys_setuid() or sys_setgid(); a call that is refused changes nothing.
pub data IdCall : Type 0 where
  set_uid set_gid : ℕ → IdCall

abbrev pub or_same : Option Task → Task → Task
or_same none t = t
or_same (some t') t = t'

pub do_call : IdCall → Task → Task
do_call (set_uid u) t = or_same (sys_setuid u t) t
do_call (set_gid g) t = or_same (sys_setgid g t) t

pub do_calls : List IdCall → Task → Task
do_calls [] t = t
do_calls (c ∷ cs) t = do_calls cs (do_call c t)

-- No id of the task is root's.
pub record Unprivileged (t : Task) : Type 0 where
  pub real : t.uid ≢ 0
  pub effective : t.euid ≢ 0
  pub saved : t.suid ≢ 0

-- The user ids that the task may take.
abbrev pub Holds : Task → ℕ → Type 0
Holds t u = (u ≡ t.uid) ⊎ (u ≡ t.suid)

-- What a call leaves of an unprivileged task: the real and saved ids are the same, and the
-- effective one is the old one or one of these two; for the group ids likewise.
pub record Kept (t t' : Task) : Type 0 where
  pub uid : t'.uid ≡ t.uid
  pub suid : t'.suid ≡ t.suid
  pub gid : t'.gid ≡ t.gid
  pub sgid : t'.sgid ≡ t.sgid
  pub euid : (t'.euid ≡ t.euid) ⊎ Holds t t'.euid
  pub egid : (t'.egid ≡ t.egid) ⊎ (t'.egid ≡ t.gid) ⊎ (t'.egid ≡ t.sgid)

Kept-refl : (t : Task) → Kept t t
Kept-refl t = record {
  uid = refl;
  suid = refl;
  gid = refl;
  sgid = refl;
  euid = inl refl;
  egid = inl refl;
}

Kept-trans : (t u v : Task) → Kept t u → Kept u v → Kept t v
Kept-trans t u v a b = record {
  uid = b.uid ∙ a.uid;
  suid = b.suid ∙ a.suid;
  gid = b.gid ∙ a.gid;
  sgid = b.sgid ∙ a.sgid;
  euid = ground (arith, a.uid, a.suid, a.euid, b.euid);
  egid = ground (arith, a.gid, a.sgid, a.egid, b.egid);
}

do_call-Kept : (c : IdCall) (t : Task) → t.euid ≢ 0 → Kept t (do_call c t)
unfolding do_call sys_setuid sys_setgid
do_call-Kept (set_uid u) t h =
    let b : t.euid == 0 ≡ false = ground arith in
    elim (Bool-cases (t.uid == short u || t.suid == short u)) [
      | inr c ↦ rw (b, c) (Kept-refl t)
      | inl c ↦
          rw (b, c)
            (record {
              uid = refl;
              suid = refl;
              gid = refl;
              sgid = refl;
              euid = inr (ground arith);
              egid = inl refl;
            })
    ]
do_call-Kept (set_gid g) t h =
    let b : t.euid == 0 ≡ false = ground arith in
    elim (Bool-cases (t.gid == short g || t.sgid == short g)) [
      | inr c ↦ rw (b, c) (Kept-refl t)
      | inl c ↦
          rw (b, c)
            (record {
              uid = refl;
              suid = refl;
              gid = refl;
              sgid = refl;
              euid = inl refl;
              egid = inr (ground arith);
            })
    ]

Kept-Unprivileged : (t t' : Task) → Unprivileged t → Kept t t' → Unprivileged t'
Kept-Unprivileged t t' v k = record {
  real = λ e. v.real (sym k.uid ∙ e);
  effective = λ e. elim k.euid [
    | inl q ↦ v.effective (sym q ∙ e)
    | inr (inl q) ↦ v.real (sym q ∙ e)
    | inr (inr q) ↦ v.saved (sym q ∙ e)
  ];
  saved = λ e. v.saved (sym k.suid ∙ e);
}

-- No sequence of sys_setuid() and sys_setgid() calls gives an unprivileged task root's id: its real
-- and saved ids stay as they are, and its effective ids are always ones that it had or held.
pub do_calls-Unprivileged :
    (cs : List IdCall) (t : Task)
    → Unprivileged t
    → Unprivileged (do_calls cs t) × Kept t (do_calls cs t)
unfolding do_calls
do_calls-Unprivileged [] t v = (v, Kept-refl t)
do_calls-Unprivileged (c ∷ cs) t v =
    let k = do_call-Kept c t v.effective in
    let r = do_calls-Unprivileged cs (do_call c t) (Kept-Unprivileged t (do_call c t) v k) in
    (r.0, Kept-trans t (do_call c t) (do_calls cs (do_call c t)) k r.1)

nice_positive : (n : Increment) (t : Task) → 0 < t.priority → 0 < (sys_nice n t).priority
unfolding sys_nice
nice_positive (less n) t h = ground arith
nice_positive (more n) t h = ground arith

-- Every task of the table has a positive priority.
abbrev pub Positive : TaskTable → Type 0
Positive table = (j : ℕ) (u : Task) → j < nr_tasks → table j ≡ some u → 0 < u.priority

-- However a task calls nice(), every task of the table keeps a positive priority.
pub sys_nice-Positive :
    (table : TaskTable) (i : ℕ) (t : Task) (n : Increment)
    → Positive table
    → i < nr_tasks
    → table i ≡ some t
    → Positive (update table i (some (sys_nice n t)))
sys_nice-Positive table i t n p l e j u h q = elim (Bool-cases (i == j)) [
  | inl b ↦
      let r : some (sys_nice n t) ≡ some u = sym (updated b) ∙ q in
      let s : sys_nice n t ≡ u = cc in
      subst (λ (v : Task). 0 < v.priority) s (nice_positive n t (p i t l e))
  | inr b ↦ p j u h (sym (other b) ∙ q)
]
  where
    updated : (i == j) ≡ true → update table i (some (sys_nice n t)) j ≡ some (sys_nice n t)
    updated b = rw b refl

    other : (i == j) ≡ false → update table i (some (sys_nice n t)) j ≡ table j
    other b = rw b refl
