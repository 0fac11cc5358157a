-- ===== src/Fs/Descriptors/Dup.antt =====
-- sys_dup(), dupfd() and sys_dup2().
use linux.Base.{
  ◌-◌, ℕ, zero, suc, ◌+◌, ◌≤◌, ◌<◌, ◌≡◌, ◌≢◌, refl, sym, ap, ◌∙◌, ◌⊎◌, inl, inr, false, Option,
  none, some, arith, leb, ◌==◌, update_self, update_ne, Option-cases, subst,
}
use native.Mathlib.Decide.{ℕ_discrete}
use linux.Fs.Descriptors.Defs.{
  Descriptors, nr_open, opened, drop_file, share_file, free_fd, sys_dup, dupfd, drop_target,
  sys_dup2,
}
use linux.Fs.Descriptors.Counts.{
  names, refs, Counted, Counted-range, share-Counted, opened_in, drop_counts,
}

-- What the search for a free descriptor finds from `i` on.
abbrev pub Free : ℕ → ℕ → (ℕ → Option ℕ) → Option ℕ → Type 0
Free n i filp none = (j : ℕ) → i ≤ j → j < i + n → filp j ≢ none
Free n i filp (some fd) =
    (i ≤ fd) × (fd < i + n) × (filp fd ≡ none) × ((j : ℕ) → i ≤ j → j < fd → filp j ≢ none)

free_fd-Free : (n i : ℕ) (filp : ℕ → Option ℕ) → Free n i filp (free_fd n i filp)
unfolding free_fd
free_fd-Free zero i filp = λ j a b. absurd (omega arith)
free_fd-Free (suc n) i filp = elim (Option-cases (filp i)) [
  | inl e ↦ rw (e, free_fd) (omega arith, omega arith, e, λ j a b. absurd (omega arith))
  | inr (g, e) ↦
      rw (e, free_fd) (further n i filp g e (free_fd n (i + 1) filp) (free_fd-Free n (i + 1) filp))
]
  where
    further :
        (n i : ℕ) (filp : ℕ → Option ℕ) (g : ℕ)
        → filp i ≡ some g
        → (r : Option ℕ) → Free n (i + 1) filp r
        → Free (suc n) i filp r
    further n i filp g e none h = λ j a b. elim (ℕ_discrete i j) [
      | yes q ↦ λ z. let w : filp i ≡ none = subst (λ k. filp k ≡ none) (sym q) z in cc
      | no q ↦ h j (omega arith) (omega arith)
    ]
    further n i filp g e (some fd) (a, b, c, h) = (omega arith, omega arith, c, lower)
      where
        lower : (j : ℕ) → i ≤ j → j < fd → filp j ≢ none
        lower j x y = elim (ℕ_discrete i j) [
          | yes q ↦ λ z. let w : filp i ≡ none = subst (λ k. filp k ≡ none) (sym q) z in cc
          | no q ↦ h j (omega arith) y
        ]

-- dupfd() of an open descriptor from `arg` on: it fails exactly when no descriptor from there on is
-- free. Otherwise it returns the lowest of these, which names the same file now, and the counts stay
-- right.
pub dupfd_lem :
    (outside : ℕ → ℕ) (fildes arg g : ℕ) (s : Descriptors)
    → Counted outside s
    → opened fildes s ≡ some g
    → arg < nr_open
    → ((dupfd fildes arg s ≡ none) × ((j : ℕ) → arg ≤ j → j < nr_open → s.filp j ≢ none))
      ⊎ ((fd : ℕ) × (s' : Descriptors) × (dupfd fildes arg s ≡ some (fd, s'))
          × (fd < nr_open)
          × (s.filp fd ≡ none)
          × ((j : ℕ) → arg ≤ j → j < fd → s.filp j ≢ none)
          × (s'.filp fd ≡ some g)
          × Counted outside s')
unfolding dupfd share_file
dupfd_lem outside fildes arg g s v o below =
    go (free_fd (nr_open - arg) arg s.filp) refl (free_fd-Free (nr_open - arg) arg s.filp)
  where
    rounds : ℕ
    rounds = nr_open - arg

    go :
        (r : Option ℕ)
        → free_fd rounds arg s.filp ≡ r
        → Free rounds arg s.filp (free_fd rounds arg s.filp)
        → ((dupfd fildes arg s ≡ none) × ((j : ℕ) → arg ≤ j → j < nr_open → s.filp j ≢ none))
          ⊎ ((fd : ℕ) × (s' : Descriptors) × (dupfd fildes arg s ≡ some (fd, s'))
              × (fd < nr_open)
              × (s.filp fd ≡ none)
              × ((j : ℕ) → arg ≤ j → j < fd → s.filp j ≢ none)
              × (s'.filp fd ≡ some g)
              × Counted outside s')
    go none e f =
        let h : Free rounds arg s.filp none = subst (Free rounds arg s.filp) e f in
        let low : leb nr_open arg ≡ false = ground arith in
        inl (rw (o, dupfd, low, e) refl, λ j a l. h j a (omega arith))
    go (some fd) e f =
        let h : Free rounds arg s.filp (some fd) = subst (Free rounds arg s.filp) e f in
        let low : leb nr_open arg ≡ false = ground arith in
        let (l, q) = opened_in fildes g s o in
        let r = Counted-range outside s fildes g v l q in
        inr (
          fd,
          share_file fd g s,
          rw (o, dupfd, low, e) refl,
          omega (arith, h.1),
          h.2,
          h.3,
          update_self s.filp fd (some g),
          share-Counted outside s fd g v.small (omega (arith, h.1)) r.1
              (λ x. omega (arith, v.counts x, ap (λ (p : Option ℕ). names p x) h.2)),
        )

sys_dup-dupfd : (fildes : ℕ) (s : Descriptors) → sys_dup fildes s ≡ dupfd fildes 0 s
unfolding sys_dup dupfd
sys_dup-dupfd fildes s = refl

-- sys_dup() of an open descriptor: it fails exactly when no descriptor is free. Otherwise it returns
-- the lowest free one, which names the same file now, and the counts stay right.
pub sys_dup_lem :
    (outside : ℕ → ℕ) (fildes g : ℕ) (s : Descriptors)
    → Counted outside s
    → opened fildes s ≡ some g
    → ((sys_dup fildes s ≡ none) × ((j : ℕ) → j < nr_open → s.filp j ≢ none))
      ⊎ ((fd : ℕ) × (s' : Descriptors) × (sys_dup fildes s ≡ some (fd, s'))
          × (fd < nr_open)
          × (s.filp fd ≡ none)
          × ((j : ℕ) → j < fd → s.filp j ≢ none)
          × (s'.filp fd ≡ some g)
          × Counted outside s')
sys_dup_lem outside fildes g s v o = elim (dupfd_lem outside fildes 0 g s v o (omega arith)) [
  | inl (e, full) ↦ inl (sys_dup-dupfd fildes s ∙ e, λ j l. full j (omega arith) l)
  | inr (fd, s', e, l, empty, lowest, named, counted) ↦ inr (
    fd,
    s',
    sys_dup-dupfd fildes s ∙ e,
    l,
    empty,
    λ j y. lowest j (omega arith) y,
    named,
    counted,
  )
]

drop_target-counts :
    (outside : ℕ → ℕ) (fd f : ℕ) (s : Descriptors)
    → Counted outside s
    → fd < nr_open
    → ((drop_target fd s).file_table f).f_count + names (s.filp fd) f ≡ (s.file_table f).f_count
unfolding drop_target
drop_target-counts outside fd f s v l = elim (Option-cases (s.filp fd)) [
  | inl e ↦ rw (e, drop_target) (omega arith)
  | inr (g, e) ↦
      let r = Counted-range outside s fd g v l e in
      rw (e, drop_target) (drop_counts g f s r.0 (omega (arith, r.1)))
]

filp-drop_target : (fd : ℕ) (s : Descriptors) → (drop_target fd s).filp ≡ s.filp
unfolding drop_target drop_file
filp-drop_target fd s = elim (Option-cases (s.filp fd)) [
  | inl e ↦ rw (e, drop_target) refl
  | inr (g, e) ↦ rw (e, drop_target) refl
]

-- sys_dup2() of an open descriptor onto another one, open or not: the target names the same file as
-- the source now, and the counts stay right, those of the file that the target named included.
pub sys_dup2_lem :
    (outside : ℕ → ℕ) (oldfd newfd g : ℕ) (s : Descriptors)
    → Counted outside s
    → opened oldfd s ≡ some g
    → newfd < nr_open
    → oldfd ≢ newfd
    → (s' : Descriptors) × (sys_dup2 oldfd newfd s ≡ some (newfd, s'))
      × (s'.filp newfd ≡ some g)
      × ((fd : ℕ) → newfd ≢ fd → s'.filp fd ≡ s.filp fd)
      × Counted outside s'
unfolding sys_dup2 share_file
sys_dup2_lem outside oldfd newfd g s v o l d =
    let t = drop_target newfd s in
    let k = filp-drop_target newfd s in
    let (l0, q) = opened_in oldfd g s o in
    let r = Counted-range outside s oldfd g v l0 q in
    let b : leb nr_open newfd ≡ false = ground arith in
    let c : oldfd == newfd ≡ false = ground arith in
    (
      share_file newfd g t,
      rw (o, sys_dup2, b, c) refl,
      update_self t.filp newfd (some g),
      λ fd n. update_ne t.filp newfd fd (some g) n ∙ ap (λ (p : ℕ → Option ℕ). p fd) k,
      share-Counted outside t newfd g v.small l
          (omega (arith, r.1, drop_target-counts outside newfd g s v l))
          (λ x. omega (
            arith,
            drop_target-counts outside newfd x s v l,
            v.counts x,
            ap (λ (p : ℕ → Option ℕ). refs nr_open p x) k,
            ap (λ (p : ℕ → Option ℕ). names (p newfd) x) k,
          )),
    )
