-- ===== src/Mm/Space/Share.antt =====
-- One round of copy_page_tables(): the entry and its frame's count.
use linux.Base.{
  ℕ, ◌+◌, ◌<◌, ◌≡◌, ◌≢◌, refl, sym, ap, ◌∙◌, inl, inr, true, false, Option, some, arith, ltb, ◌==◌,
  if◌then◌else◌, length, Bool-cases, length-set, subst,
}
use linux.Mm.State.{
  Mm, Pte, Table, frame_address, nr_ptes, pt_get, pt_set, entry_of, map_nr, frame_count, used,
}
use linux.Mm.Space.Copy.{shared_pte, add_reference, share_entry}
use linux.Mm.Space.Refs.{
  refers, Whole, pt_set-Whole, pt_get-set_self, pt_get-set_ne, pt_get-set_dir, add_reference_lem,
}

-- What sharing makes of an entry of the parent, and of the child's entry at the same index.
abbrev pub shared_or_same : Pte → Pte → Pte
shared_or_same source old = if source.present then shared_pte source else old

length-add_reference : (i : ℕ) (s : Mm) → length (add_reference i s).mem_map ≡ length s.mem_map
unfolding add_reference
length-add_reference i s = elim (Bool-cases (ltb (frame_count s i) used)) [
  | inl e ↦ rw e (length-set s.mem_map i (frame_count s i + 1))
  | inr e ↦ rw e refl
]

dirs-add_reference : (i : ℕ) (s : Mm) → (add_reference i s).dirs ≡ s.dirs
unfolding add_reference
dirs-add_reference i s = ground arith

ram-add_reference : (i : ℕ) (s : Mm) → (add_reference i s).ram ≡ s.ram
unfolding add_reference
ram-add_reference i s = ground arith

pub shared_or_same-true : (p q : Pte) → p.present ≡ true → shared_or_same p q ≡ shared_pte p
shared_or_same-true p q e = ground (arith, e)

pub shared_or_same-false : (p q : Pte) → p.present ≡ false → shared_or_same p q ≡ q
shared_or_same-false p q e = ground (arith, e)

-- An entry `q` for the same page as `p`, read-only and marked COW.
pub record ReadOnlyShare (p q : Pte) : Type 0 where
  pub present : q.present ≡ true
  pub read_only : q.rw ≡ false
  pub marked : q.cow ≡ true
  pub user : q.user ≡ p.user
  pub frame : q.base ≡ p.base

-- A page is shared, and an entry without one stays as it was.
abbrev pub SharedOrSame : Pte → Pte → Pte → Type 0
SharedOrSame p old q = (p.present ≡ true → ReadOnlyShare p q) × (p.present ≡ false → q ≡ old)

pub shared_or_same-SharedOrSame : (p old q : Pte) → q ≡ shared_or_same p old → SharedOrSame p old q
shared_or_same-SharedOrSame p old q e = (
  (λ h.
      let same : q ≡ shared_pte p = e ∙ shared_or_same-true p old h in
      subst (λ (r : Pte). ReadOnlyShare p r) (sym same)
        (record { present = h; read_only = refl; marked = refl; user = refl; frame = refl })),
  (λ h. e ∙ shared_or_same-false p old h),
)

pub refers_present :
    (p : Pte) (m : ℕ)
    → p.present ≡ true
    → refers p m ≡ (if map_nr (frame_address p) == m then 1 else 0)
refers_present p m e = ground (arith, e)

refers_absent : (p : Pte) (m : ℕ) → p.present ≡ false → refers p m ≡ 0
refers_absent p m e = ground (arith, e)

module _ (from to : ℕ) (apart : from ≢ to) where
  -- Both directories have whole tables.
  abbrev pub Ready : Mm → Type 0
  Ready s = Whole s from × Whole s to

  -- What one round of the loop does to the counts and to the two entries.
  pub record Shares (i : ℕ) (s s' : Mm) : Type 0 where
    pub ready : Ready s'
    pub from_entry : pt_get s' from i ≡ shared_or_same (pt_get s from i) (pt_get s from i)
    pub to_entry : pt_get s' to i ≡ shared_or_same (pt_get s from i) (pt_get s to i)
    pub elsewhere : (dir j : ℕ) → i ≢ j → pt_get s' dir j ≡ pt_get s dir j
    pub counts : (m : ℕ) → frame_count s' m ≡ frame_count s m + refers (pt_get s from i) m
    pub frames : length s'.mem_map ≡ length s.mem_map
    pub contents : s'.ram ≡ s.ram

  share_entry_absent :
      (i : ℕ) (s : Mm) → (pt_get s from i).present ≡ false → share_entry from to i s ≡ s
  unfolding share_entry
  share_entry_absent i s e = rw e refl

  -- The state after a present entry was shared.
  abbrev shared_state : ℕ → Mm → Mm
  shared_state i s =
      let pte = shared_pte (pt_get s from i) in
      pt_set (pt_set (add_reference (map_nr (frame_address (pt_get s from i))) s) from i pte) to i
        pte

  share_entry_present :
      (i : ℕ) (s : Mm)
      → (pt_get s from i).present ≡ true
      → share_entry from to i s ≡ shared_state i s
  unfolding share_entry
  share_entry_present i s e = ground (arith, e)

  absent-Shares : (i : ℕ) (s : Mm) → Ready s → (pt_get s from i).present ≡ false → Shares i s s
  absent-Shares i s r e = record {
    ready = r;
    from_entry = sym (shared_or_same-false (pt_get s from i) (pt_get s from i) e);
    to_entry = sym (shared_or_same-false (pt_get s from i) (pt_get s to i) e);
    elsewhere = λ dir j d. refl;
    counts = λ m. omega (arith, refers_absent (pt_get s from i) m e);
    frames = refl;
    contents = refl;
  }

  present-Shares :
      (i : ℕ) (s : Mm)
      → Ready s
      → i < nr_ptes
      → (pt_get s from i).present ≡ true
      → map_nr (frame_address (pt_get s from i)) < length s.mem_map
      → frame_count s (map_nr (frame_address (pt_get s from i))) < used
      → Shares i s (shared_state i s)
  present-Shares i s r h e l u = record {
    ready = (pt_set-Whole s2 to from i pte (pt_set-Whole s1 from from i pte w), after_first);
    from_entry =
        pt_get-set_dir s2 to from i i pte (λ q. apart (sym q))
        ∙ pt_get-set_self s1 from i pte w h
        ∙ sym (shared_or_same-true (pt_get s from i) (pt_get s from i) e);
    to_entry =
        pt_get-set_self s2 to i pte (pt_set-Whole s1 from to i pte w') h
        ∙ sym (shared_or_same-true (pt_get s from i) (pt_get s to i) e);
    elsewhere = λ dir j d.
        pt_get-set_ne s2 to dir i j pte d
        ∙ pt_get-set_ne s1 from dir i j pte d
        ∙ ap (λ (f : ℕ → Option Table). entry_of (f dir) j) same;
    counts = λ m.
        add_reference_lem n m s l u
        ∙ ap (λ k. frame_count s m + k) (sym (refers_present (pt_get s from i) m e));
    frames = length-add_reference n s;
    contents = ram-add_reference n s;
  }
    where
      pte : Pte
      pte = shared_pte (pt_get s from i)

      n : ℕ
      n = map_nr (frame_address (pt_get s from i))

      s1 : Mm
      s1 = add_reference n s

      s2 : Mm
      s2 = pt_set s1 from i pte

      same : s1.dirs ≡ s.dirs
      same = dirs-add_reference n s

      w : Whole s1 from
      w =
          subst
            (λ (f : ℕ → Option Table).
              (t : Table) × (f from ≡ some t) × (length t.entries ≡ nr_ptes))
            (sym same) r.0

      w' : Whole s1 to
      w' =
          subst
            (λ (f : ℕ → Option Table). (t : Table) × (f to ≡ some t) × (length t.entries ≡ nr_ptes))
            (sym same) r.1

      after_first : Whole (pt_set s2 to i pte) to
      after_first = pt_set-Whole s2 to to i pte (pt_set-Whole s1 from to i pte w')

  pub share_entry-Shares :
      (i : ℕ) (s : Mm)
      → Ready s
      → i < nr_ptes
      → ((pt_get s from i).present ≡ true
          → (map_nr (frame_address (pt_get s from i)) < length s.mem_map)
            × (frame_count s (map_nr (frame_address (pt_get s from i))) < used))
      → Shares i s (share_entry from to i s)
  share_entry-Shares i s r h v = elim (Bool-cases (pt_get s from i).present) [
    | inr e ↦ subst (Shares i s) (sym (share_entry_absent i s e)) (absent-Shares i s r e)
    | inl e ↦
        subst (Shares i s) (sym (share_entry_present i s e))
          (present-Shares i s r h e (v e).0 (v e).1)
  ]
