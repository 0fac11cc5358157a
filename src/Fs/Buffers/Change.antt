-- ===== src/Fs/Buffers/Change.antt =====
-- A buffer that keeps its block, and a ring in another order.
use linux.Base.{
  ℕ, ◌≡◌, ◌≢◌, ◌⊎◌, ◌<◌, refl, sym, ap, subst, ◌∙◌, inl, inr, true, false, if◌then◌else◌, update,
  update_self, update_ne, each, Bool-cases, arith,
}
use linux.Fs.Bitmap.Truncate.{In}
use linux.Fs.Files.{Block}
use linux.Fs.Buffers.Defs.{nr_buffers, Buffer, BufferCache, chain_index, is_block}
use linux.Fs.Buffers.Cached.{IsValid, content, content-buffer, content-disk, somewhere, is_block_of}

abbrev pub changed : BufferCache → ℕ → Buffer → (ℕ → Block) → BufferCache
changed s i w blocks = record s {
  buf = update s.buf i w;
  disk = record (s.disk) { blocks = blocks };
}

-- What a buffer of a block says of it.
abbrev pub own_bytes : Buffer → Block → Block
own_bytes w disk = if w.uptodate then w.bytes else disk

module _ (dev : ℕ) (there : dev ≢ 0) (s : BufferCache) (i : ℕ) (w : Buffer) (blocks : ℕ → Block)
    (valid : IsValid dev s) (low : i < nr_buffers) (same_dev : w.dev ≡ (s.buf i).dev)
    (same_num : w.num ≡ (s.buf i).num)
    (elsewhere : (n : ℕ) → is_block dev n (s.buf i) ≡ false → blocks n ≡ s.disk.blocks n)
    (fresh : w.dirt ≡ true → w.uptodate ≡ true)
    (clean : w.dev ≢ 0 → w.uptodate ≡ true → w.dirt ≡ false → w.bytes ≡ blocks w.num)
    (unused : w.dev ≡ 0 → w.dirt ≡ false) where
  abbrev after : BufferCache
  after = changed s i w blocks

  dev_stays : (j : ℕ) → (after.buf j).dev ≡ (s.buf j).dev
  dev_stays j = each (λ j x. x.dev ≡ (s.buf j).dev) s.buf i w same_dev (λ j other. refl) j

  num_stays : (j : ℕ) → (after.buf j).num ≡ (s.buf j).num
  num_stays j = each (λ j x. x.num ≡ (s.buf j).num) s.buf i w same_num (λ j other. refl) j

  pub key_stays : (n j : ℕ) → is_block dev n (after.buf j) ≡ is_block dev n (s.buf j)
  key_stays n j = rw (dev_stays j, num_stays j) refl

  pub changed-IsValid : IsValid dev after
  changed-IsValid = record {
    ring = valid.ring;
    chained = valid.chained;
    found = (λ j h nz.
        subst (λ d. In j (s.chain (chain_index d (after.buf j).num))) (sym (dev_stays j))
          (subst (λ n. In j (s.chain (chain_index (s.buf j).dev n))) (sym (num_stays j))
            (valid.found j h (λ e. nz (dev_stays j ∙ e)))));
    single = (λ j k n hj hk a b.
        valid.single j k n hj hk (sym (key_stays n j) ∙ a) (sym (key_stays n k) ∙ b));
    one_dev = (λ j h. subst (λ d. (d ≡ 0) ⊎ (d ≡ dev)) (sym (dev_stays j)) (valid.one_dev j h));
    unused_clean =
        each (λ j x. j < nr_buffers → x.dev ≡ 0 → x.dirt ≡ false) s.buf i w (λ h. unused)
          (λ j other h. valid.unused_clean j h);
    dirty_fresh =
        each (λ j x. j < nr_buffers → x.dirt ≡ true → x.uptodate ≡ true) s.buf i w (λ h. fresh)
          (λ j other h. valid.dirty_fresh j h);
    synced =
        each
          (λ j x.
            j < nr_buffers
            → x.dev ≢ 0
            → x.uptodate ≡ true
            → x.dirt ≡ false
            → x.bytes ≡ blocks x.num)
          s.buf i w (λ h. clean)
          (λ j other h nz u c.
            valid.synced j h nz u c ∙ sym (elsewhere (s.buf j).num (apart j h other nz)));
  }
    where
      apart :
          (j : ℕ)
          → j < nr_buffers
          → i ≢ j
          → (s.buf j).dev ≢ 0
          → is_block dev (s.buf j).num (s.buf i) ≡ false
      apart j h other nz = elim (Bool-cases (is_block dev (s.buf j).num (s.buf i))) [
        | inr miss ↦ miss
        | inl hit ↦ absurd (
            other (
              valid.single i j (s.buf j).num low h hit
                (is_block_of dev (s.buf j).num (s.buf j) (own j h nz) refl)))
      ]
        where
          own : (j : ℕ) → j < nr_buffers → (s.buf j).dev ≢ 0 → (s.buf j).dev ≡ dev
          own j h nz = elim (valid.one_dev j h) [ inl e ↦ absurd (nz e) | inr e ↦ e ]

  -- The block of the buffer has what the buffer then says, the others have what they had.
  pub content-changed_own :
      (n : ℕ) → is_block dev n (s.buf i) ≡ true → content dev after n ≡ own_bytes w (blocks n)
  content-changed_own n hit =
      content-buffer dev there after changed-IsValid i n low (key_stays n i ∙ hit)
      ∙ ap (λ x. own_bytes x (blocks n)) (update_self s.buf i w)

  pub content-changed_other :
      (n : ℕ) → is_block dev n (s.buf i) ≡ false → content dev after n ≡ content dev s n
  content-changed_other n miss = elim (somewhere dev there s valid n) [
    | inr none_has ↦
        content-disk dev there after changed-IsValid n (λ j h. key_stays n j ∙ none_has j h)
        ∙ elsewhere n miss
        ∙ sym (content-disk dev there s valid n none_has)
    | inl (j, h, hit) ↦
        let other : i ≢ j = (λ e.
          let bad = subst (λ k. is_block dev n (s.buf k) ≡ false) e miss in
          absurd (ground arith)) in
        content-buffer dev there after changed-IsValid j n h (key_stays n j ∙ hit)
        ∙ ap (λ x. own_bytes x (blocks n)) (update_ne s.buf i j w other)
        ∙ ap (λ b. own_bytes (s.buf j) b) (elsewhere n miss)
        ∙ sym (content-buffer dev there s valid j n h hit)
  ]

  -- If the block of the buffer has what it had, all blocks have.
  pub content-changed :
      ((n : ℕ)
        → is_block dev n (s.buf i) ≡ true
        → own_bytes w (blocks n) ≡ own_bytes (s.buf i) (s.disk.blocks n))
      → (n : ℕ) → content dev after n ≡ content dev s n
  content-changed kept n = elim (Bool-cases (is_block dev n (s.buf i))) [
    | inl hit ↦
        content-changed_own n hit ∙ kept n hit ∙ sym (content-buffer dev there s valid i n low hit)
    | inr miss ↦ content-changed_other n miss
  ]
