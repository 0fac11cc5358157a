-- ===== src/Fs/Descriptors/Counts.antt =====
-- Each file's count is the number of descriptors that name it.
use linux.Base.{
  ℕ, zero, suc, ◌+◌, ◌-◌, ◌%◌, ◌^◌, ◌≤◌, ◌<◌, ◌≡◌, ◌≢◌, refl, sym, ap, ◌∙◌, inl, inr, ◌&&◌, Option,
  none, some, ◌∷◌, arith, leb, ◌==◌, if◌then◌else◌, update, update_self, update_ne, Bool-cases,
  subst,
}
use native.Mathlib.Decide.{ℕ_discrete}
use linux.Fs.Descriptors.Defs.{
  Descriptors, File, nr_open, opened, drop_file, share_file, clear, sys_close,
}

-- 1 if a descriptor names file `f`.
abbrev pub names : Option ℕ → ℕ → ℕ
names none f = 0
names (some g) f = if g == f then 1 else 0

-- How many of the first `n` descriptors name `f`.
unfoldable pub refs : ℕ → (ℕ → Option ℕ) → ℕ → ℕ
refs zero filp f = 0
refs (suc n) filp f = names (filp n) f + refs n filp f

names_le : (o : Option ℕ) (f : ℕ) → names o f ≤ 1
names_le none f = omega arith
names_le (some g) f = ground arith

refs_le : (n : ℕ) (filp : ℕ → Option ℕ) (f : ℕ) → refs n filp f ≤ n
unfolding refs
refs_le zero filp f = omega arith
refs_le (suc n) filp f = omega (arith, refs_le n filp f, names_le (filp n) f)

-- A store beyond the first `n` descriptors does not count.
refs-update_out :
    (n : ℕ) (filp : ℕ → Option ℕ) (fd : ℕ) (o : Option ℕ) (f : ℕ)
    → n ≤ fd
    → refs n (update filp fd o) f ≡ refs n filp f
unfolding refs
refs-update_out zero filp fd o f h = refl
refs-update_out (suc n) filp fd o f h =
    let a = update_ne filp fd n o (λ e. absurd (omega (arith, e))) in
    let b = refs-update_out n filp fd o f (omega arith) in
    omega (arith, b, ap (λ (p : Option ℕ). names p f) a)

-- A store changes the count by what the descriptor named and names.
refs-update :
    (n : ℕ) (filp : ℕ → Option ℕ) (fd : ℕ) (o : Option ℕ) (f : ℕ)
    → fd < n
    → refs n (update filp fd o) f + names (filp fd) f ≡ refs n filp f + names o f
unfolding refs
refs-update zero filp fd o f h = absurd (omega arith)
refs-update (suc n) filp fd o f h = elim (ℕ_discrete fd n) [
  | yes e ↦
      let a : update filp fd o n ≡ o =
        subst (λ k. update filp fd o k ≡ o) e (update_self filp fd o) in
      let b = refs-update_out n filp fd o f (omega arith) in
      omega (arith, b, ap (λ (p : Option ℕ). names p f) a, ap (λ k. names (filp k) f) e)
  | no d ↦
      let a = update_ne filp fd n o d in
      let b = refs-update n filp fd o f (omega arith) in
      omega (arith, b, ap (λ (p : Option ℕ). names p f) a)
]

-- Every file counts the descriptors of this task that name it, and `outside f` of other tasks; the
-- sum fits an unsigned short with room for one more.
pub record Counted (outside : ℕ → ℕ) (s : Descriptors) : Type 0 where
  pub counts : (f : ℕ) → (s.file_table f).f_count ≡ refs nr_open s.filp f + outside f
  pub small : (f : ℕ) → outside f + nr_open + 1 < 2 ^ 16

pub names_self : (g : ℕ) → names (some g) g ≡ 1
names_self g = ground arith

names_ne : (g f : ℕ) → g ≢ f → names (some g) f ≡ 0
names_ne g f d = ground arith

pub drop_counts :
    (g f : ℕ) (s : Descriptors)
    → 0 < (s.file_table g).f_count
    → (s.file_table g).f_count < 2 ^ 16
    → ((drop_file g s).file_table f).f_count + names (some g) f ≡ (s.file_table f).f_count
unfolding drop_file
drop_counts g f s z l = elim (ℕ_discrete g f) [
  | yes e ↦
      subst
        (λ k. ((drop_file g s).file_table k).f_count + names (some g) k ≡ (s.file_table k).f_count)
        e
        (let n = ((s.file_table g).f_count + 2 ^ 16 - 1) % 2 ^ 16 in
          let u =
            ap (λ (x : File). x.f_count)
              (update_self s.file_table g (record (s.file_table g) { f_count = n })) in
          omega (arith, u, names_self g))
  | no d ↦
      let n = ((s.file_table g).f_count + 2 ^ 16 - 1) % 2 ^ 16 in
      let u =
        ap (λ (x : File). x.f_count)
          (update_ne s.file_table g f (record (s.file_table g) { f_count = n }) d) in
      omega (arith, u, names_ne g f d)
]

share_counts :
    (fd g f : ℕ) (s : Descriptors)
    → (s.file_table g).f_count + 1 < 2 ^ 16
    → ((share_file fd g s).file_table f).f_count ≡ (s.file_table f).f_count + names (some g) f
unfolding share_file
share_counts fd g f s l = elim (ℕ_discrete g f) [
  | yes e ↦
      subst
        (λ k.
          ((share_file fd g s).file_table k).f_count ≡ (s.file_table k).f_count + names (some g) k)
        e
        (let n = ((s.file_table g).f_count + 1) % 2 ^ 16 in
          let u =
            ap (λ (x : File). x.f_count)
              (update_self s.file_table g (record (s.file_table g) { f_count = n })) in
          omega (arith, u, names_self g))
  | no d ↦
      let n = ((s.file_table g).f_count + 1) % 2 ^ 16 in
      let u =
        ap (λ (x : File). x.f_count)
          (update_ne s.file_table g f (record (s.file_table g) { f_count = n }) d) in
      omega (arith, u, names_ne g f d)
]

-- A descriptor that names a file is one of its references.
named_once :
    (s : Descriptors) (fd f g : ℕ)
    → fd < nr_open
    → s.filp fd ≡ some g
    → refs nr_open (update s.filp fd none) f + names (some g) f ≡ refs nr_open s.filp f
named_once s fd f g l e =
    omega (arith, refs-update nr_open s.filp fd none f l, ap (λ (o : Option ℕ). names o f) e)

-- What a file that `fd` names counts at least and at most.
pub Counted-range :
    (outside : ℕ → ℕ) (s : Descriptors) (fd g : ℕ)
    → Counted outside s
    → fd < nr_open
    → s.filp fd ≡ some g
    → (0 < (s.file_table g).f_count) × ((s.file_table g).f_count + 1 < 2 ^ 16)
Counted-range outside s fd g v l e = (
  omega (arith, v.counts g, named_once s fd g g l e, names_self g),
  omega (arith, v.counts g, v.small g, refs_le nr_open s.filp g),
)

-- Sharing `g` at `fd`, when the count of the file that `fd` named is one short already.
pub share-Counted :
    (outside : ℕ → ℕ) (s : Descriptors) (fd g : ℕ)
    → ((f : ℕ) → outside f + nr_open + 1 < 2 ^ 16)
    → fd < nr_open
    → (s.file_table g).f_count + 1 < 2 ^ 16
    → ((f : ℕ) → (s.file_table f).f_count + names (s.filp fd) f ≡ refs nr_open s.filp f + outside f)
    → Counted outside (share_file fd g s)
unfolding share_file
share-Counted outside s fd g m l b h = record {
  counts =
      λ f. omega (arith, share_counts fd g f s b, refs-update nr_open s.filp fd (some g) f l, h f);
  small = m;
}

pub opened_in :
    (fd f : ℕ) (s : Descriptors) → opened fd s ≡ some f → (fd < nr_open) × (s.filp fd ≡ some f)
opened_in fd f s e = elim (Bool-cases (leb nr_open fd)) [
  | inl b ↦ let q : opened fd s ≡ none = rw b refl in absurd (cc)
  | inr b ↦ let q : opened fd s ≡ s.filp fd = rw b refl in (ground arith, sym q ∙ e)
]

-- sys_close() of an open descriptor: the counts stay right, the descriptor is free, and the inode is
-- handed to iput() exactly if the file has one and this was its last reference.
pub sys_close_lem :
    (outside : ℕ → ℕ) (fd g : ℕ) (s : Descriptors)
    → Counted outside s
    → opened fd s ≡ some g
    → (s' : Descriptors) × (sys_close fd s ≡ some s')
      × Counted outside s'
      × (s'.filp fd ≡ none)
      × (s'.released ≡ (
          if (s.file_table g).f_count == 1 && (s.file_table g).has_inode
          then g ∷ s.released
          else s.released))
unfolding sys_close drop_file
sys_close_lem outside fd g s v o =
    let (l, e) = opened_in fd g s o in
    let r = Counted-range outside s fd g v l e in
    let last : ((s.file_table g).f_count + 2 ^ 16 - 1) % 2 ^ 16 == 0
        ≡ ((s.file_table g).f_count == 1) =
      ground (arith, r.0, r.1) in
    (
      drop_file g (clear fd s),
      rw (o, sys_close) refl,
      record {
        counts = λ f. omega (
          arith,
          drop_counts g f (clear fd s) r.0 (omega (arith, r.1)),
          v.counts f,
          named_once s fd f g l e,
        );
        small = v.small;
      },
      update_self s.filp fd none,
      rw last refl,
    )
