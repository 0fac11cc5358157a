-- ===== src/Fs/Buffers/Recycle.antt =====
-- A buffer without changes is taken for another block.
use linux.Base.{
  ℕ, ◌≡◌, ◌≢◌, ◌⊎◌, ◌<◌, refl, sym, ap, subst, ◌∙◌, inl, inr, true, false, update, update_self,
  update_ne, each, Bool-cases, arith,
}
use native.Mathlib.Decide.{ℕ_discrete}
use linux.Fs.Bitmap.Truncate.{In}
use linux.Fs.Buffers.Defs.{
  nr_buffers, Buffer, BufferCache, chain_index, is_block, rechained, recycled, recycle,
}
use linux.Fs.Buffers.Cached.{
  IsValid, content, content-buffer, content-disk, somewhere, is_block_parts, is_block_of, Nowhere,
}
use linux.Fs.Buffers.Change.{own_bytes}
use linux.Fs.Buffers.Chains.{In-rechained, rechained-In, at_head}

module _ (dev : ℕ) (there : dev ≢ 0) (s : BufferCache) (i n : ℕ) (valid : IsValid dev s)
    (low : i < nr_buffers) (unchanged : (s.buf i).dirt ≡ false) (new : Nowhere dev n s) where
  abbrev after : BufferCache
  after = record s { buf = update s.buf i (recycled dev n (s.buf i)); chain = rechained dev n i s }

  abbrev taken : Buffer
  taken = recycled dev n (s.buf i)

  self : after.buf i ≡ taken
  self = update_self s.buf i taken

  other_stays : (j : ℕ) → i ≢ j → after.buf j ≡ s.buf j
  other_stays j d = update_ne s.buf i j taken d

  block_taken : (m : ℕ) → is_block dev m taken ≡ true → n ≡ m
  block_taken m e = (is_block_parts dev m taken e).1

  not_taken :
      (j m : ℕ) → j < nr_buffers → is_block dev m taken ≡ true → is_block dev m (s.buf j) ≡ true → ⊥
  not_taken j m h e hit =
      let bad : is_block dev m (s.buf j) ≡ false =
        subst (λ k. is_block dev k (s.buf j) ≡ false) (block_taken m e) (new j h) in
      ground arith

  recycled-IsValid : IsValid dev after
  recycled-IsValid = record {
    ring = valid.ring;
    chained = (λ h j there_in. elim (rechained-In dev n i s h j there_in) [
      | inl e ↦ subst (λ k. k < nr_buffers) e low
      | inr k ↦ valid.chained h j k
    ]);
    found =
        each
          (λ j x. j < nr_buffers → x.dev ≢ 0 → In j (rechained dev n i s (chain_index x.dev x.num)))
          s.buf i taken (λ h nz. at_head dev n i s)
          (λ j d h nz.
            In-rechained dev n i s (chain_index (s.buf j).dev (s.buf j).num) j d
              (valid.found j h nz));
    single = (λ j k m hj hk.
        each
          (λ j x.
            j < nr_buffers → is_block dev m x ≡ true → is_block dev m (after.buf k) ≡ true → j ≡ k)
          s.buf i taken
          (λ h e.
            each (λ k x. k < nr_buffers → is_block dev m x ≡ true → i ≡ k) s.buf i taken
              (λ a b. refl) (λ k d a b. absurd (not_taken k m a e b)) k hk)
          (λ j d h e.
            each (λ k x. k < nr_buffers → is_block dev m x ≡ true → j ≡ k) s.buf i taken
              (λ a b. absurd (not_taken j m h b e)) (λ k d' a b. valid.single j k m h a e b) k hk)
          j hj);
    one_dev =
        each (λ j x. j < nr_buffers → (x.dev ≡ 0) ⊎ (x.dev ≡ dev)) s.buf i taken (λ h. inr refl)
          (λ j d h. valid.one_dev j h);
    unused_clean =
        each (λ j x. j < nr_buffers → x.dev ≡ 0 → x.dirt ≡ false) s.buf i taken (λ h e. refl)
          (λ j d h. valid.unused_clean j h);
    dirty_fresh =
        each (λ j x. j < nr_buffers → x.dirt ≡ true → x.uptodate ≡ true) s.buf i taken (λ h e. cc)
          (λ j d h. valid.dirty_fresh j h);
    synced =
        each
          (λ j x.
            j < nr_buffers
            → x.dev ≢ 0
            → x.uptodate ≡ true
            → x.dirt ≡ false
            → x.bytes ≡ s.disk.blocks x.num)
          s.buf i taken (λ h nz u c. cc) (λ j d h. valid.synced j h);
  }

  -- A buffer that goes had what the disk has.
  given_up : (m : ℕ) → is_block dev m (s.buf i) ≡ true → content dev s m ≡ s.disk.blocks m
  given_up m hit =
      let (d, k) = is_block_parts dev m (s.buf i) hit in
      content-buffer dev there s valid i m low hit ∙ elim (Bool-cases (s.buf i).uptodate) [
        | inr e ↦ rw e refl
        | inl e ↦
            rw e (
              valid.synced i low (λ z. there (sym d ∙ z)) e unchanged ∙ ap (λ a. s.disk.blocks a) k)
      ]

  recycled-content : (m : ℕ) → content dev after m ≡ content dev s m
  recycled-content m = elim (ℕ_discrete n m) [
    | yes e ↦
        let hit : is_block dev m (after.buf i) ≡ true =
          subst (λ x. is_block dev m x ≡ true) (sym self) (is_block_of dev m taken refl e) in
        content-buffer dev there after recycled-IsValid i m low hit
        ∙ ap (λ x. own_bytes x (s.disk.blocks m)) self
        ∙ sym (content-disk dev there s valid m (subst (λ k. Nowhere dev k s) e new))
    | no d ↦ elim (somewhere dev there s valid m) [
      | inr none_has ↦
          content-disk dev there after recycled-IsValid m (
            each (λ j x. j < nr_buffers → is_block dev m x ≡ false) s.buf i taken
              (λ h. not_here m d) (λ j o h. none_has j h))
          ∙ sym (content-disk dev there s valid m none_has)
      | inl (j, h, hit) ↦ elim (ℕ_discrete i j) [
        | no o ↦
            content-buffer dev there after recycled-IsValid j m h
              (subst (λ x. is_block dev m x ≡ true) (sym (other_stays j o)) hit)
            ∙ ap (λ x. own_bytes x (s.disk.blocks m)) (other_stays j o)
            ∙ sym (content-buffer dev there s valid j m h hit)
        | yes at ↦
            let own : is_block dev m (s.buf i) ≡ true =
              subst (λ k. is_block dev m (s.buf k) ≡ true) (sym at) hit in
            content-disk dev there after recycled-IsValid m (
              each (λ j x. j < nr_buffers → is_block dev m x ≡ false) s.buf i taken
                (λ h. not_here m d)
                (λ k o h'. elim (Bool-cases (is_block dev m (s.buf k))) [
                  | inr miss ↦ miss
                  | inl hit' ↦ absurd (o (valid.single i k m low h' own hit'))
                ]))
            ∙ sym (given_up m own)
      ]
    ]
  ]
    where
      not_here : (m : ℕ) → n ≢ m → is_block dev m taken ≡ false
      not_here m d = elim (Bool-cases (is_block dev m taken)) [
        | inr miss ↦ miss
        | inl hit ↦ absurd (d (block_taken m hit))
      ]

  -- The system has the same of every block, and the buffer is the block's.
  pub recycle-IsValid : IsValid dev (recycle dev n i s)
  unfolding recycle
  recycle-IsValid = recycled-IsValid

  pub content-recycle : (m : ℕ) → content dev (recycle dev n i s) m ≡ content dev s m
  unfolding recycle
  content-recycle = recycled-content

  pub recycle-buffer : (recycle dev n i s).buf i ≡ recycled dev n (s.buf i)
  unfolding recycle
  recycle-buffer = self

  pub recycle-disk : (recycle dev n i s).disk ≡ s.disk
  unfolding recycle
  recycle-disk = refl

  pub recycle-free : (recycle dev n i s).free ≡ s.free
  unfolding recycle
  recycle-free = refl

  pub recycle-other : (j : ℕ) → i ≢ j → (recycle dev n i s).buf j ≡ s.buf j
  unfolding recycle
  recycle-other = other_stays
