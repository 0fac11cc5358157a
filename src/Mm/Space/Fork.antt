-- ===== src/Mm/Space/Fork.antt =====
-- copy_page_tables() shares every page of the parent: both tables name it read-only, and its frame
-- counts one reference more.
use linux.Base.{
  ℕ, zero, suc, ◌+◌, ◌≤◌, ◌<◌, ◌≡◌, ◌≢◌, refl, sym, ap, ◌∙◌, ◌⊎◌, inl, inr, Bool, true, false,
  Option, none, some, arith, if◌then◌else◌, length, Bool-cases, ==_iff, subst,
}
use native.Mathlib.Decide.{ℕ_discrete}
use linux.Mm.State.{Mm, Pte, frame_address, nr_ptes, pt_get, map_nr, frame_count, used}
use linux.Mm.Swap.{Disk}
use linux.Mm.Space.Defs.{has_table}
use linux.Mm.Space.Copy.{share_entry, bring_in, copy_loop, copy_page_tables}
use linux.Mm.Space.Refs.{refers, refs, refs_agree}
use linux.Mm.Space.Share.{
  refers_present, Ready, Shares, shared_or_same, SharedOrSame, shared_or_same-SharedOrSame,
  share_entry-Shares,
}

module _ (from to : ℕ) (apart : from ≢ to) where
  -- An entry that can be shared as it stands: not on the swap device, and its frame is in the map.
  abbrev pub InCore : Mm → ℕ → Type 0
  InCore s j =
      ((pt_get s from j).present ≡ false → (pt_get s from j).swapped ≡ false)
      × ((pt_get s from j).present ≡ true
          → map_nr (frame_address (pt_get s from j)) < length s.mem_map)

  -- What the `n` rounds from entry `i` on do.
  pub record Copied (i n : ℕ) (s s' : Mm) : Type 0 where
    pub ready : Ready from to apart s'
    pub from_entry :
        (j : ℕ)
        → i ≤ j
        → j < i + n
        → pt_get s' from j ≡ shared_or_same (pt_get s from j) (pt_get s from j)
    pub to_entry :
        (j : ℕ)
        → i ≤ j
        → j < i + n
        → pt_get s' to j ≡ shared_or_same (pt_get s from j) (pt_get s to j)
    pub elsewhere : (dir j : ℕ) → (j < i) ⊎ (i + n ≤ j) → pt_get s' dir j ≡ pt_get s dir j
    pub counts : (m : ℕ) → frame_count s' m ≡ frame_count s m + refs (λ j. pt_get s from j) i n m
    pub contents : s'.ram ≡ s.ram

  Copied-zero : (i : ℕ) (s : Mm) → Ready from to apart s → Copied i 0 s s
  unfolding refs
  Copied-zero i s r = record {
    ready = r;
    from_entry = λ j a b. absurd (omega arith);
    to_entry = λ j a b. absurd (omega arith);
    elsewhere = λ dir j h. refl;
    counts = λ m. omega arith;
    contents = refl;
  }

  Copied-suc :
      (i n : ℕ) (s s1 s' : Mm)
      → Shares from to apart i s s1
      → Copied (i + 1) n s1 s'
      → Copied i (suc n) s s'
  unfolding refs
  Copied-suc i n s s1 s' h c = record {
    ready = c.ready;
    from_entry = λ j a b. elim (ℕ_discrete i j) [
      | yes e ↦
          c.elsewhere from j (inl (omega arith))
          ∙ subst (λ k. pt_get s1 from k ≡ shared_or_same (pt_get s from k) (pt_get s from k)) e
              h.from_entry
      | no e ↦
          c.from_entry j (omega arith) (omega arith)
          ∙ ap (λ (p : Pte). shared_or_same p p) (h.elsewhere from j e)
    ];
    to_entry = λ j a b. elim (ℕ_discrete i j) [
      | yes e ↦
          c.elsewhere to j (inl (omega arith))
          ∙ subst (λ k. pt_get s1 to k ≡ shared_or_same (pt_get s from k) (pt_get s to k)) e
              h.to_entry
      | no e ↦
          c.to_entry j (omega arith) (omega arith)
          ∙ ap (λ (p : Pte). shared_or_same p (pt_get s1 to j)) (h.elsewhere from j e)
          ∙ ap (λ (p : Pte). shared_or_same (pt_get s from j) p) (h.elsewhere to j e)
    ];
    elsewhere = λ dir j o. c.elsewhere dir j (omega arith) ∙ h.elsewhere dir j (omega arith);
    counts = λ m. omega (
      arith,
      c.counts m,
      h.counts m,
      refs_agree (λ j. pt_get s1 from j) (λ j. pt_get s from j) (i + 1) n m
          (λ j a b. h.elsewhere from j (omega arith)),
    );
    contents = c.contents ∙ h.contents;
  }

  bring_in_core : (d : Disk) (i : ℕ) (s : Mm) → InCore s i → bring_in d from i s ≡ (true, s)
  unfolding bring_in
  bring_in_core d i s h = elim (Bool-cases (pt_get s from i).present) [
    | inl e ↦ rw e refl
    | inr e ↦ let q = h.0 e in rw (e, q) refl
  ]

  -- An entry that is in core stays so while others are shared.
  InCore-Shares :
      (i j : ℕ) (s s1 : Mm) → Shares from to apart i s s1 → i ≢ j → InCore s j → InCore s1 j
  InCore-Shares i j s s1 h d c = rw (h.frames) (
      subst
        (λ (p : Pte).
          (p.present ≡ false → p.swapped ≡ false)
          × (p.present ≡ true → map_nr (frame_address p) < length s.mem_map))
        (sym (h.elsewhere from j d)) c)

  -- A frame that one more entry names has room for one more reference.
  room :
      (i n : ℕ) (s : Mm)
      → (pt_get s from i).present ≡ true
      → frame_count s (map_nr (frame_address (pt_get s from i)))
          + refs (λ j. pt_get s from j) i (suc n) (map_nr (frame_address (pt_get s from i)))
        ≤ used
      → frame_count s (map_nr (frame_address (pt_get s from i))) < used
  unfolding refs
  room i n s e u =
      let m = map_nr (frame_address (pt_get s from i)) in
      let one : refers (pt_get s from i) m ≡ 1 =
        refers_present (pt_get s from i) m e
        ∙ ap (λ (b : Bool). if b then 1 else 0) ((==_iff m m).1 refl) in
      omega (arith, u, one)

  copy_step :
      (d : Disk) (n i shared : ℕ) (s : Mm)
      → bring_in d from i s ≡ (true, s)
      → copy_loop d (suc n) from to i shared s
        ≡ copy_loop d n from to
            (i + 1)
            (shared + (if (pt_get s from i).present then 1 else 0))
            (share_entry from to i s)
  unfolding copy_loop
  copy_step d n i shared s e =
      ap {B = Option ℕ × Mm}
        (λ (r : Bool × Mm). elim r.0 [
          | false ↦ (none, r.1)
          | true ↦
              copy_loop d n from to (i + 1)
                (shared + (if (pt_get r.1 from i).present then 1 else 0))
                (share_entry from to i r.1)
        ])
        e

  copy_loop-Copied :
      (d : Disk) (n i shared : ℕ) (s : Mm)
      → i + n ≤ nr_ptes
      → Ready from to apart s
      → ((j : ℕ) → i ≤ j → j < i + n → InCore s j)
      → ((m : ℕ) → frame_count s m + refs (λ j. pt_get s from j) i n m ≤ used)
      → (k : ℕ) × (s' : Mm) × (copy_loop d n from to i shared s ≡ (some k, s')) × Copied i n s s'
  unfolding copy_loop refs
  copy_loop-Copied d zero i shared s l r c u = (shared, s, refl, Copied-zero i s r)
  copy_loop-Copied d (suc n) i shared s l r c u =
      let here = c i (omega arith) (omega arith) in
      let h =
        share_entry-Shares from to apart i s r (omega arith)
          (λ e. (here.1 e, room i n s e (u (map_nr (frame_address (pt_get s from i)))))) in
      let rest =
        copy_loop-Copied d n (i + 1) (shared + (if (pt_get s from i).present then 1 else 0))
          (share_entry from to i s) (omega arith) h.ready
          (λ j a b.
            InCore-Shares i j s (share_entry from to i s) h (omega arith)
              (c j (omega arith) (omega arith)))
          (λ m. omega (
            arith,
            u m,
            h.counts m,
            refs_agree (λ j. pt_get (share_entry from to i s) from j) (λ j. pt_get s from j) (i + 1)
                n m (λ j a b. h.elsewhere from j (omega arith)),
          )) in
      (
        rest.0,
        rest.1,
        copy_step d n i shared s (bring_in_core d i s here) ∙ rest.2,
        Copied-suc i n s (share_entry from to i s) rest.1 h rest.3,
      )

  -- fork() of a parent whose pages are all in core: copy_page_tables() succeeds, without the disk.
  -- In both tables every page of the parent is read-only and marked COW, and names the same frame;
  -- entries that were empty stay as they were. Each frame counts one reference more for each of the
  -- parent's entries that name it, if no count exceeds USED (100) by that, and no frame's contents
  -- change.
  pub copy_page_tables_lem :
      (d : Disk) (s : Mm)
      → Ready from to apart s
      → ((j : ℕ) → j < nr_ptes → InCore s j)
      → ((m : ℕ) → frame_count s m + refs (λ j. pt_get s from j) 0 nr_ptes m ≤ used)
      → (k : ℕ) × (s' : Mm) × (copy_page_tables d from to s ≡ (some k, s'))
        × ((j : ℕ)
            → j < nr_ptes
            → SharedOrSame (pt_get s from j) (pt_get s from j) (pt_get s' from j)
              × SharedOrSame (pt_get s from j) (pt_get s to j) (pt_get s' to j))
        × ((m : ℕ) → frame_count s' m ≡ frame_count s m + refs (λ j. pt_get s from j) 0 nr_ptes m)
        × (s'.ram ≡ s.ram)
  unfolding copy_page_tables
  copy_page_tables_lem d s r c u =
      let p = copy_loop-Copied d nr_ptes 0 0 s (omega arith) r (λ j a b. c j (omega arith)) u in
      (
        p.0,
        p.1,
        rw (ap has_table r.0.1, ap has_table r.1.1) p.2,
        λ j h. (
          shared_or_same-SharedOrSame (pt_get s from j) (pt_get s from j) (pt_get p.1 from j)
              (p.3.from_entry j (omega arith) (omega arith)),
          shared_or_same-SharedOrSame (pt_get s from j) (pt_get s to j) (pt_get p.1 to j)
              (p.3.to_entry j (omega arith) (omega arith)),
        ),
        p.3.counts,
        p.3.contents,
      )
