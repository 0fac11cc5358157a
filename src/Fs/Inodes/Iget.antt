-- ===== src/Fs/Inodes/Iget.antt =====
-- iget() finds or loads an inode and loses no change to another.
use linux.Base.{
  ℕ, ◌+◌, ◌%◌, ◌≡◌, ◌≢◌, ◌⊎◌, ◌<◌, refl, sym, ap, ◌∙◌, inl, inr, true, false, Option, none, some,
  ◌==◌, update, update_self, Bool-cases, ==_iff, arith,
}
use linux.Fs.Inodes.Defs.{
  nr_inode, Slot, Inodes, first_slot, is_inode, is_unused, write_inode, claimed, dropped, load,
  one_more, claim, hit_or, iget,
}
use linux.Fs.Inodes.Content.{IsValid, Nowhere, Picked, picked, is_inode_parts, is_inode_self}
use linux.Fs.Inodes.Reuse.{refilled-IsValid, content-refilled}
use linux.Fs.Inodes.Relabel.{Writable, SameContent, relabelled-IsValid, content-relabelled}
use linux.Fs.Inodes.Flush.{write_inode_lem}

-- What iget() gives: NULL if the inode cannot be read, or no slot has it and none is unused; else a
-- slot that has the inode, with one more reference than before, or the first one.
abbrev pub Gives : Inodes → Inodes → ℕ → ℕ → Option ℕ → Type 0
Gives s s' dev nr none =
    (s.readable dev nr ≡ false)
    ⊎ (Nowhere dev nr s.table × ((i : ℕ) → i < nr_inode → is_unused (s.table i) ≡ false))
Gives s s' dev nr (some i) =
    (i < nr_inode)
    × (is_inode dev nr (s'.table i) ≡ true)
    × (((is_inode dev nr (s.table i) ≡ true) × ((s'.table i).count ≡ ((s.table i).count + 1) % 256))
        ⊎ (((s.table i).count ≡ 0) × ((s'.table i).count ≡ 1)))

record Outcome (s : Inodes) (dev nr : ℕ) (r : Option ℕ × Inodes) : Type 0 where
  valid : IsValid r.1
  same : SameContent s r.1
  gives : Gives s r.1 dev nr r.0

module _ (s : Inodes) (dev nr : ℕ) (v : IsValid s) (writable : Writable s) (nz : dev ≢ 0) where
  hit-Outcome :
      (i : ℕ)
      → i < nr_inode
      → is_inode dev nr (s.table i) ≡ true
      → Outcome s dev nr (some i, record s { table = update s.table i (one_more (s.table i)) })
  hit-Outcome i h e =
      let o = s.table i in
      let synced : o.dev ≢ 0 → o.dirt ≡ false → o.body ≡ s.disk o.dev o.num =
        (λ a b. v.synced i h a b) in
      let self = update_self s.table i (one_more o) in
      record {
        valid =
            relabelled-IsValid s i (one_more o) s.disk v h (λ d n. refl) refl synced
              (λ d n x. refl);
        same =
            content-relabelled s i (one_more o) s.disk v h (λ d n. refl) refl synced
              (λ d n x. refl);
        gives = (h, ap (λ x. is_inode dev nr x) self ∙ e, inl (e, ap (λ (x : Slot). x.count) self));
      }

  load-Outcome :
      (i : ℕ)
      → i < nr_inode
      → (s.table i).count ≡ 0
      → Nowhere dev nr s.table
      → Outcome s dev nr (load dev nr i (write_inode i s))
  unfolding load
  load-Outcome i h zero_count nowhere =
      let s1 = write_inode i s in
      let f = write_inode_lem s i v writable h in
      let o = s1.table i in
      let nowhere1 : Nowhere dev nr s1.table = (λ j hj. f.keys dev nr j ∙ nowhere j hj) in
      let nz' : dev == 0 ≡ false = ground (arith, nz) in
      elim (Bool-cases (s1.readable dev nr)) [
        | inl ok ↦
            let w : Slot = record (claimed dev nr o) { body = s1.disk dev nr } in
            let fresh : (d n : ℕ)
                → d ≢ 0
                → is_inode d n w ≡ true
                → Nowhere d n s1.table × (w.body ≡ s1.disk d n) =
              (λ d n x e.
                let (p, q) = is_inode_parts d n w e in
                (
                  (λ j hj.
                      ap (λ a. is_inode a n (s1.table j)) (sym p)
                      ∙ ap (λ b. is_inode dev b (s1.table j)) (sym q)
                      ∙ nowhere1 j hj),
                  ap (λ a. s1.disk a nr) p ∙ ap (λ b. s1.disk d b) q,
                )) in
            let self = update_self s1.table i w in
            rw (nz', ok)
              (record {
                valid = refilled-IsValid s1 i w f.valid h f.kept fresh;
                same =
                    (λ d n x. content-refilled s1 i w f.valid h f.kept fresh d n x ∙ f.same d n x);
                gives = (
                  h,
                  ap (λ x. is_inode dev nr x) self ∙ is_inode_self w,
                  inr (zero_count, ap (λ (x : Slot). x.count) self),
                );
              })
        | inr bad ↦
            let w : Slot = dropped dev nr o in
            let fresh : (d n : ℕ)
                → d ≢ 0
                → is_inode d n w ≡ true
                → Nowhere d n s1.table × (w.body ≡ s1.disk d n) =
              (λ d n x e. absurd (x (sym (is_inode_parts d n w e).0))) in
            rw (nz', bad)
              (record {
                valid = refilled-IsValid s1 i w f.valid h f.kept fresh;
                same =
                    (λ d n x. content-refilled s1 i w f.valid h f.kept fresh d n x ∙ f.same d n x);
                gives = inl (sym (ap (λ r. r dev nr) f.readable) ∙ bad);
              })
      ]

  -- iget() of a device inode, from a table in which no two slots have the same inode and a slot
  -- without changes has what the disk has, while the slots with changes can be written back: the
  -- table stays such a table, the system holds the same content for every inode as before, and the
  -- result is NULL only if the inode cannot be read or neither has a slot nor finds an unused one;
  -- otherwise it is a slot that has the inode, with one more reference, or the first.
  pub iget_lem :
      IsValid (iget dev nr s).1
      × SameContent s (iget dev nr s).1
      × Gives s (iget dev nr s).1 dev nr (iget dev nr s).0
  unfolding iget
  iget_lem =
      go (first_slot nr_inode 0 (is_inode dev nr) s.table) (first_slot nr_inode 0 is_unused s.table)
        (picked (is_inode dev nr) s.table) (picked is_unused s.table)
    where
      three :
          (r : Option ℕ × Inodes)
          → Outcome s dev nr r
          → IsValid r.1 × SameContent s r.1 × Gives s r.1 dev nr r.0
      three r out = (out.valid, out.same, out.gives)

      go :
          (hit unused : Option ℕ)
          → Picked (is_inode dev nr) s.table 0 nr_inode hit
          → Picked is_unused s.table 0 nr_inode unused
          → (let r = hit_or hit s (claim dev nr unused s) in
              IsValid r.1 × SameContent s r.1 × Gives s r.1 dev nr r.0)
      go (some i) unused (h, e) q =
          three (some i, record s { table = update s.table i (one_more (s.table i)) })
            (hit-Outcome i h e)
      go none none nowhere full = (
        v,
        (λ d n x. refl),
        inr ((λ j hj. nowhere j (omega arith) hj), (λ j hj. full j (omega arith) hj)),
      )
      go none (some i) nowhere (h, e) =
          three (load dev nr i (write_inode i s)) (
            load-Outcome i h ((==_iff (s.table i).count 0).0 e)
              (λ j hj. nowhere j (omega arith) hj))
