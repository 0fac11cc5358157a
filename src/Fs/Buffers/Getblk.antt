-- ===== src/Fs/Buffers/Getblk.antt =====
-- getblk() and bread() find or load a block and lose no change to another.
use linux.Base.{
  ℕ, ◌+◌, ◌%◌, ◌≡◌, ◌≢◌, ◌⊎◌, ◌<◌, refl, sym, ap, subst, ◌∙◌, inl, inr, true, false, Option, none,
  some, update, update_self, update_ne, Bool-cases, arith,
}
use linux.Fs.Bitmap.Truncate.{In}
use linux.Fs.Inodes.Content.{true-false}
use linux.Fs.Buffers.Defs.{
  nr_buffers, Buffer, Disk, BufferCache, is_block, is_unused, one_more, first_in, recycled, recycle,
  write_buffer, write_back, reuse, getblk,
}
use linux.Fs.Buffers.Cached.{
  IsValid, content, first_in-Picked, Picked, lookup, is_block_of, Nowhere,
}
use linux.Fs.Buffers.Change.{key_stays, changed-IsValid, content-changed}
use linux.Fs.Buffers.Recycle.{
  recycle-IsValid, content-recycle, recycle-buffer, recycle-disk, recycle-free, recycle-other,
}

-- Every buffer with changes can be written.
abbrev pub Writable : BufferCache → Type 0
Writable s =
    (i : ℕ) → i < nr_buffers → (s.buf i).dirt ≡ true → s.disk.can_write (s.buf i).num ≡ true

abbrev pub SameContent : ℕ → BufferCache → BufferCache → Type 0
SameContent dev s s' = (m : ℕ) → content dev s' m ≡ content dev s m

-- What the write of a buffer leaves.
pub record Flushed (dev : ℕ) (s : BufferCache) (i : ℕ) (s' : BufferCache) : Type 0 where
  pub valid : IsValid dev s'
  pub same : SameContent dev s s'
  pub clean : (s'.buf i).dirt ≡ false
  pub keys : (n j : ℕ) → is_block dev n (s'.buf j) ≡ is_block dev n (s.buf j)
  pub others : (j : ℕ) → i ≢ j → s'.buf j ≡ s.buf j
  pub count : (s'.buf i).count ≡ (s.buf i).count
  pub same_ring : s'.free ≡ s.free
  pub can_read : s'.disk.can_read ≡ s.disk.can_read
  pub can_write : s'.disk.can_write ≡ s.disk.can_write

module _ (dev : ℕ) (there : dev ≢ 0) where
  own_dev :
      (s : BufferCache) (i : ℕ)
      → IsValid dev s
      → i < nr_buffers
      → (s.buf i).dirt ≡ true
      → is_block dev (s.buf i).num (s.buf i) ≡ true
  own_dev s i v low dirty = elim (v.one_dev i low) [
    | inl z ↦ absurd (true-false dirty (v.unused_clean i low z))
    | inr e ↦ is_block_of dev (s.buf i).num (s.buf i) e refl
  ]

  pub write_buffer-Flushed :
      (s : BufferCache) (i : ℕ)
      → IsValid dev s
      → i < nr_buffers
      → (s.buf i).dirt ≡ true
      → s.disk.can_write (s.buf i).num ≡ true
      → Flushed dev s i (write_buffer i s)
  unfolding write_buffer
  write_buffer-Flushed s i v low dirty ok =
      let b = s.buf i in
      let w : Buffer = record b { dirt = false; uptodate = true } in
      let blocks = update s.disk.blocks b.num b.bytes in
      let stored : blocks b.num ≡ b.bytes = update_self s.disk.blocks b.num b.bytes in
      let own = own_dev s i v low dirty in
      let elsewhere : (n : ℕ) → is_block dev n b ≡ false → blocks n ≡ s.disk.blocks n = (λ n miss.
        update_ne s.disk.blocks b.num n b.bytes
          (λ e. true-false (subst (λ k. is_block dev k b ≡ true) e own) miss)) in
      let clean : w.dev ≢ 0 → w.uptodate ≡ true → w.dirt ≡ false → w.bytes ≡ blocks w.num =
        (λ a c d. sym stored) in
      let self = update_self s.buf i w in
      rw ok (record {
        valid =
            changed-IsValid dev there s i w blocks v low refl refl elsewhere (λ e. refl) clean
              (λ e. refl);
        same =
            content-changed dev there s i w blocks v low refl refl elsewhere (λ e. refl) clean
              (λ e. refl) (λ m hit. rw (v.dirty_fresh i low dirty) refl);
        clean = ap (λ (x : Buffer). x.dirt) self;
        keys =
            key_stays dev there s i w blocks v low refl refl elsewhere (λ e. refl) clean
              (λ e. refl);
        others = (λ j d. update_ne s.buf i j w d);
        count = ap (λ (x : Buffer). x.count) self;
        same_ring = refl;
        can_read = refl;
        can_write = refl;
      })

  write_back-Flushed :
      (s : BufferCache) (i : ℕ)
      → IsValid dev s
      → Writable s
      → i < nr_buffers
      → Flushed dev s i (write_back i s)
  write_back-Flushed s i v writable low = elim (Bool-cases (s.buf i).dirt) [
    | inl dirty ↦ rw dirty (write_buffer-Flushed s i v low dirty (writable i low dirty))
    | inr clean ↦ rw clean (record {
      valid = v;
      same = (λ m. refl);
      clean = clean;
      keys = (λ n j. refl);
      others = (λ j d. refl);
      count = refl;
      same_ring = refl;
      can_read = refl;
      can_write = refl;
    })
  ]

  -- What getblk() gives: it has to wait if no buffer has the block and none of the ring is unused;
  -- else a buffer of the block, with one more reference than before, or the first.
  abbrev pub Gives : BufferCache → BufferCache → ℕ → Option ℕ → Type 0
  Gives s s' n none = Nowhere dev n s × ((i : ℕ) → In i s.free → is_unused (s.buf i) ≡ false)
  Gives s s' n (some i) =
      (i < nr_buffers)
      × (is_block dev n (s'.buf i) ≡ true)
      × (((is_block dev n (s.buf i) ≡ true) × ((s'.buf i).count ≡ ((s.buf i).count + 1) % 256))
          ⊎ (((s.buf i).count ≡ 0) × ((s'.buf i).count ≡ 1)))
      × ((j : ℕ) → i ≢ j → (s'.buf j).count ≡ (s.buf j).count)

  pub record Outcome (s : BufferCache) (n : ℕ) (r : Option ℕ × BufferCache) : Type 0 where
    pub valid : IsValid dev r.1
    pub same : SameContent dev s r.1
    pub gives : Gives s r.1 n r.0
    pub same_ring : r.1.free ≡ s.free
    pub can_read : r.1.disk.can_read ≡ s.disk.can_read
    pub can_write : r.1.disk.can_write ≡ s.disk.can_write

  hit-Outcome :
      (s : BufferCache) (n i : ℕ)
      → IsValid dev s
      → i < nr_buffers
      → is_block dev n (s.buf i) ≡ true
      → Outcome s n (some i, record s { buf = update s.buf i (one_more (s.buf i)) })
  hit-Outcome s n i v low hit =
      let w = one_more (s.buf i) in
      let self = update_self s.buf i w in
      let synced : w.dev ≢ 0 → w.uptodate ≡ true → w.dirt ≡ false → w.bytes ≡ s.disk.blocks w.num =
        (λ a c d. v.synced i low a c d) in
      record {
        valid =
            changed-IsValid dev there s i w s.disk.blocks v low refl refl (λ m e. refl)
              (v.dirty_fresh i low) synced (v.unused_clean i low);
        same =
            content-changed dev there s i w s.disk.blocks v low refl refl (λ m e. refl)
              (v.dirty_fresh i low) synced (v.unused_clean i low) (λ m own. refl);
        gives = (
          low,
          subst (λ x. is_block dev n x ≡ true) (sym self) hit,
          inl (hit, ap (λ (x : Buffer). x.count) self),
          (λ j d. ap (λ (x : Buffer). x.count) (update_ne s.buf i j w d)),
        );
        same_ring = refl;
        can_read = refl;
        can_write = refl;
      }

  reuse-Outcome :
      (s : BufferCache) (n i : ℕ)
      → IsValid dev s
      → Writable s
      → i < nr_buffers
      → is_unused (s.buf i) ≡ true
      → Nowhere dev n s
      → Outcome s n (some i, recycle dev n i (write_back i s))
  reuse-Outcome s n i v writable low unused nowhere =
      let s1 = write_back i s in
      let f = write_back-Flushed s i v writable low in
      let new : Nowhere dev n s1 = (λ j h. f.keys n j ∙ nowhere j h) in
      let self = recycle-buffer dev there s1 i n f.valid low f.clean new in
      record {
        valid = recycle-IsValid dev there s1 i n f.valid low f.clean new;
        same = (λ m. content-recycle dev there s1 i n f.valid low f.clean new m ∙ f.same m);
        gives = (
          low,
          subst (λ x. is_block dev n x ≡ true) (sym self)
              (is_block_of dev n (recycled dev n (s1.buf i)) refl refl),
          inr (ground arith, ap (λ (x : Buffer). x.count) self),
          (λ j d.
              ap (λ (x : Buffer). x.count)
                (recycle-other dev there s1 i n f.valid low f.clean new j d ∙ f.others j d)),
        );
        same_ring = recycle-free dev there s1 i n f.valid low f.clean new ∙ f.same_ring;
        can_read =
            ap (λ (x : Disk). x.can_read) (recycle-disk dev there s1 i n f.valid low f.clean new)
            ∙ f.can_read;
        can_write =
            ap (λ (x : Disk). x.can_write) (recycle-disk dev there s1 i n f.valid low f.clean new)
            ∙ f.can_write;
      }

  -- getblk() on the one device of a well-formed cache whose changed buffers can be written: the
  -- cache stays well-formed, the cache and the disk together hold the same of every block, and the
  -- result is a buffer of the block, with one more reference or its first; the call waits only if no
  -- buffer has the block and every buffer is in use.
  pub getblk_lem :
      (s : BufferCache) (n : ℕ) → IsValid dev s → Writable s → Outcome s n (getblk dev n s)
  unfolding getblk
  getblk_lem s n v writable = elim (lookup dev there s v n) [
    | inr (i, e, low, hit) ↦ rw e (hit-Outcome s n i v low hit)
    | inl (e, nowhere) ↦
        rw e (go nowhere (first_in is_unused s.buf s.free) (first_in-Picked is_unused s.buf s.free))
  ]
    where
      go :
          Nowhere dev n s
          → (r : Option ℕ) → Picked is_unused s.buf s.free r
          → Outcome s n (reuse dev n r s)
      go nowhere none full = record {
        valid = v;
        same = (λ m. refl);
        gives = (nowhere, full);
        same_ring = refl;
        can_read = refl;
        can_write = refl;
      }
      go nowhere (some i) (in_ring, unused) =
          reuse-Outcome s n i v writable (v.ring i in_ring) unused nowhere
