-- ===== src/Fs/Inodes/Reuse.antt =====
-- A slot whose inode is on the disk can be filled again.
use linux.Base.{
  each, ℕ, ◌≡◌, ◌≢◌, ◌<◌, refl, sym, ap, subst, ◌∙◌, inl, inr, true, false, update, update_ne,
  Bool-cases,
}
use native.Mathlib.Decide.{ℕ_discrete}
use linux.Fs.Inodes.Defs.{nr_inode, Slot, Inodes, is_inode}
use linux.Fs.Inodes.Content.{
  IsValid, content, content-slot, content-disk, Nowhere, somewhere, is_inode_parts, is_inode_self,
  true-false,
}

module _ (s : Inodes) (i : ℕ) (w : Slot) (valid : IsValid s) (h : i < nr_inode)
    (kept : (s.table i).dev ≢ 0 → (s.table i).body ≡ s.disk (s.table i).dev (s.table i).num)
    (fresh : (d n : ℕ)
      → d ≢ 0
      → is_inode d n w ≡ true
      → Nowhere d n s.table × (w.body ≡ s.disk d n)) where
  abbrev pub refilled : Inodes
  refilled = record s { table = update s.table i w }

  pub refilled-IsValid : IsValid refilled
  refilled-IsValid = record {
    single = (λ j k d n hj hk nz.
        each
          (λ j x.
            j < nr_inode → is_inode d n x ≡ true → is_inode d n (refilled.table k) ≡ true → j ≡ k)
          s.table i w
          (λ hi e.
            each (λ k x. k < nr_inode → is_inode d n x ≡ true → i ≡ k) s.table i w (λ a b. refl)
              (λ k other a b. absurd (true-false b ((fresh d n nz e).0 k a))) k hk)
          (λ j other hj e.
            each (λ k x. k < nr_inode → is_inode d n x ≡ true → j ≡ k) s.table i w
              (λ a b. absurd (true-false e ((fresh d n nz b).0 j hj)))
              (λ k other' a b. valid.single j k d n hj a nz e b) k hk)
          j hj);
    synced =
        each (λ j x. j < nr_inode → x.dev ≢ 0 → x.dirt ≡ false → x.body ≡ s.disk x.dev x.num)
          s.table i w (λ hi nz clean. (fresh w.dev w.num nz (is_inode_self w)).1)
          (λ j other hj nz clean. valid.synced j hj nz clean);
  }

  -- The content of every inode stays.
  pub content-refilled : (d n : ℕ) → d ≢ 0 → content refilled d n ≡ content s d n
  content-refilled d n nz = elim (somewhere d n s.table) [
    | inr none_has ↦ elim (somewhere d n refilled.table) [
      | inr none_has' ↦ content-disk refilled d n none_has' ∙ sym (content-disk s d n none_has)
      | inl (j, hj, e) ↦
          content-slot refilled j d n refilled-IsValid hj nz e
          ∙ each (λ j x. j < nr_inode → is_inode d n x ≡ true → x.body ≡ s.disk d n) s.table i w
              (λ a b. (fresh d n nz b).1) (λ j other a b. absurd (true-false b (none_has j a))) j hj
              e
          ∙ sym (content-disk s d n none_has)
    ]
    | inl (j, hj, e) ↦ elim (ℕ_discrete i j) [
      | no other ↦
          let same = update_ne s.table i j w other in
          let e' : is_inode d n (refilled.table j) ≡ true = ap (λ x. is_inode d n x) same ∙ e in
          content-slot refilled j d n refilled-IsValid hj nz e'
          ∙ ap (λ (x : Slot). x.body) same
          ∙ sym (content-slot s j d n valid hj nz e)
      | yes at ↦
          let own : is_inode d n (s.table i) ≡ true =
            subst (λ k. is_inode d n (s.table k) ≡ true) (sym at) e in
          content-disk refilled d n (gone d n nz own) ∙ stored d n nz own
    ]
  ]
    where
      gone : (d n : ℕ) → d ≢ 0 → is_inode d n (s.table i) ≡ true → Nowhere d n refilled.table
      gone d n nz own =
          each (λ j x. j < nr_inode → is_inode d n x ≡ false) s.table i w
            (λ a. elim (Bool-cases (is_inode d n w)) [
              | inl b ↦ absurd (true-false own ((fresh d n nz b).0 i h))
              | inr b ↦ b
            ])
            (λ j other a. elim (Bool-cases (is_inode d n (s.table j))) [
              | inl b ↦ absurd (other (valid.single i j d n h a nz own b))
              | inr b ↦ b
            ])

      stored : (d n : ℕ) → d ≢ 0 → is_inode d n (s.table i) ≡ true → s.disk d n ≡ content s d n
      stored d n nz own =
          let (a, b) = is_inode_parts d n (s.table i) own in
          let live : (s.table i).dev ≢ 0 = (λ x. nz (sym a ∙ x)) in
          let on_disk : (s.table i).body ≡ s.disk d n =
            kept live ∙ ap (λ x. s.disk x (s.table i).num) a ∙ ap (λ x. s.disk d x) b in
          sym (content-slot s i d n valid h nz own ∙ on_disk)
