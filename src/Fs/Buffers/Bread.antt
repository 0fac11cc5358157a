-- ===== src/Fs/Buffers/Bread.antt =====
-- bread() gives the bytes of a block, and brelse() gives the buffer back.
use linux.Base.{
  ℕ, ◌+◌, ◌%◌, ◌≡◌, ◌≢◌, ◌⊎◌, ◌<◌, refl, sym, ap, subst, ◌∙◌, inl, inr, Bool, true, false, Option,
  none, some, update_self, update_ne, Bool-cases,
}
use linux.Fs.Bitmap.Truncate.{In}
use linux.Fs.Inodes.Content.{true-false}
use linux.Fs.Buffers.Defs.{
  nr_buffers, Buffer, Disk, BufferCache, is_block, is_unused, put_buffer, getblk, read_buffer,
  brelse, Bread, waits, failed, ready, read_into, bread,
}
use linux.Fs.Buffers.Cached.{IsValid, content, content-buffer, is_block_parts, Nowhere}
use linux.Fs.Buffers.Change.{changed-IsValid, content-changed}
use linux.Fs.Buffers.Ring.{brelse-Released}
use linux.Fs.Buffers.Getblk.{Writable, SameContent, Outcome, getblk_lem}

-- What bread() gives: it has to wait as getblk() does; NULL if the block cannot be read; else a
-- buffer of the block, up to date, whose bytes are those of the block.
abbrev pub ReadGives : ℕ → BufferCache → BufferCache → ℕ → Bread → Type 0
ReadGives dev s s' n waits = Nowhere dev n s × ((i : ℕ) → In i s.free → is_unused (s.buf i) ≡ false)
ReadGives dev s s' n failed = s.disk.can_read n ≡ false
ReadGives dev s s' n (ready i) =
    (i < nr_buffers)
    × (is_block dev n (s'.buf i) ≡ true)
    × ((s'.buf i).uptodate ≡ true)
    × ((s'.buf i).bytes ≡ content dev s n)
    × (((s'.buf i).count ≡ ((s.buf i).count + 1) % 256)
        ⊎ (((s.buf i).count ≡ 0) × ((s'.buf i).count ≡ 1)))
    × ((j : ℕ) → i ≢ j → (s'.buf j).count ≡ (s.buf j).count)

pub record ReadOutcome (dev : ℕ) (s : BufferCache) (n : ℕ) (r : Bread × BufferCache) : Type 0 where
  pub valid : IsValid dev r.1
  pub same : SameContent dev s r.1
  pub gives : ReadGives dev s r.1 n r.0
  pub members : (j : ℕ) → In j s.free → In j r.1.free
  pub can_read : r.1.disk.can_read ≡ s.disk.can_read
  pub can_write : r.1.disk.can_write ≡ s.disk.can_write

module _ (dev : ℕ) (there : dev ≢ 0) where
  -- The block read into its buffer, which has no changes to lose.
  read_good :
      (s : BufferCache) (i : ℕ)
      → s.disk.can_read (s.buf i).num ≡ true
      → read_buffer i s
        ≡ put_buffer i (record (s.buf i) { bytes = s.disk.blocks (s.buf i).num; uptodate = true }) s
  unfolding read_buffer
  read_good s i e = rw e refl

  read_bad :
      (s : BufferCache) (i : ℕ)
      → s.disk.can_read (s.buf i).num ≡ false
      → read_buffer i s
        ≡ put_buffer i (record (s.buf i) { bytes = s.disk.torn (s.buf i).num (s.buf i).bytes }) s
  unfolding read_buffer
  read_bad s i e = rw e refl

  module _ (s s1 : BufferCache) (n i : ℕ) (out : Outcome dev there s n (some i, s1)) where
    low : i < nr_buffers
    low = out.gives.0

    at : is_block dev n (s1.buf i) ≡ true
    at = out.gives.1

    num : (s1.buf i).num ≡ n
    num = (is_block_parts dev n (s1.buf i) at).1

    count :
        ((s1.buf i).count ≡ ((s.buf i).count + 1) % 256)
        ⊎ (((s.buf i).count ≡ 0) × ((s1.buf i).count ≡ 1))
    count = elim out.gives.2 [ inl (e, k) ↦ inl k | inr k ↦ inr k ]

    members : (j : ℕ) → In j s.free → In j s1.free
    members j h = subst (λ l. In j l) (sym out.same_ring) h

    up_to_date : (s1.buf i).uptodate ≡ true → ReadOutcome dev s n (ready i, s1)
    up_to_date up = record {
      valid = out.valid;
      same = out.same;
      gives = (
        low,
        at,
        up,
        sym (content-buffer dev there s1 out.valid i n low at ∙ rw up refl) ∙ out.same n,
        count,
        out.gives.3,
      );
      members = members;
      can_read = out.can_read;
      can_write = out.can_write;
    }

    module _ (stale : (s1.buf i).uptodate ≡ false) where
      unchanged : (s1.buf i).dirt ≡ false
      unchanged = elim (Bool-cases (s1.buf i).dirt) [
        | inr e ↦ e
        | inl e ↦ absurd (true-false (out.valid.dirty_fresh i low e) stale)
      ]

      abbrev loaded : Buffer
      loaded = record (s1.buf i) { bytes = s1.disk.blocks (s1.buf i).num; uptodate = true }

      loaded_clean :
          loaded.dev ≢ 0
          → loaded.uptodate ≡ true
          → loaded.dirt ≡ false
          → loaded.bytes ≡ s1.disk.blocks loaded.num
      loaded_clean a b c = refl

      read_in : ReadOutcome dev s n (ready i, put_buffer i loaded s1)
      read_in =
          let self = update_self s1.buf i loaded in
          record {
            valid =
                changed-IsValid dev there s1 i loaded s1.disk.blocks out.valid low refl refl
                  (λ m e. refl) (λ e. refl) loaded_clean (λ e. unchanged);
            same = (λ m.
                content-changed dev there s1 i loaded s1.disk.blocks out.valid low refl refl
                  (λ m e. refl) (λ e. refl) loaded_clean (λ e. unchanged)
                  (λ k hit.
                    ap (λ a. s1.disk.blocks a) (is_block_parts dev k (s1.buf i) hit).1
                    ∙ rw stale refl)
                  m
                ∙ out.same m);
            gives = (
              low,
              subst (λ x. is_block dev n x ≡ true) (sym self) at,
              ap (λ (x : Buffer). x.uptodate) self,
              ap (λ (x : Buffer). x.bytes) self
                  ∙ ap (λ a. s1.disk.blocks a) num
                  ∙ sym (content-buffer dev there s1 out.valid i n low at ∙ rw stale refl)
                  ∙ out.same n,
              subst (λ x. (x ≡ ((s.buf i).count + 1) % 256) ⊎ (((s.buf i).count ≡ 0) × (x ≡ 1)))
                  (sym (ap (λ (x : Buffer). x.count) self)) count,
              (λ j d.
                  ap (λ (x : Buffer). x.count) (update_ne s1.buf i j loaded d) ∙ out.gives.3 j d),
            );
            members = members;
            can_read = out.can_read;
            can_write = out.can_write;
          }

      abbrev garbled : Buffer
      garbled = record (s1.buf i) { bytes = s1.disk.torn (s1.buf i).num (s1.buf i).bytes }

      garbled_clean :
          garbled.dev ≢ 0
          → garbled.uptodate ≡ true
          → garbled.dirt ≡ false
          → garbled.bytes ≡ s1.disk.blocks garbled.num
      garbled_clean a b c = absurd (true-false b stale)

      read_failed :
          s1.disk.can_read n ≡ false
          → ReadOutcome dev s n (failed, brelse i (put_buffer i garbled s1))
      read_failed bad =
          let s2 = put_buffer i garbled s1 in
          let valid2 : IsValid dev s2 =
            changed-IsValid dev there s1 i garbled s1.disk.blocks out.valid low refl refl
              (λ m e. refl) (out.valid.dirty_fresh i low) garbled_clean (λ e. unchanged) in
          let r = brelse-Released dev there s2 i valid2 low in
          record {
            valid = r.valid;
            same = (λ m.
                r.same m
                ∙ content-changed dev there s1 i garbled s1.disk.blocks out.valid low refl refl
                    (λ m e. refl) (out.valid.dirty_fresh i low) garbled_clean (λ e. unchanged)
                    (λ k hit. rw stale refl) m
                ∙ out.same m);
            gives = ap (λ (f : ℕ → Bool). f n) (sym out.can_read) ∙ bad;
            members = (λ j h. r.members j (members j h));
            can_read = ap (λ (x : Disk). x.can_read) r.same_disk ∙ out.can_read;
            can_write = ap (λ (x : Disk). x.can_write) r.same_disk ∙ out.can_write;
          }

  read_into-Outcome :
      (s : BufferCache) (n : ℕ) (r : Option ℕ × BufferCache)
      → Outcome dev there s n r
      → ReadOutcome dev s n (read_into r)
  read_into-Outcome s n (none, s1) out = record {
    valid = out.valid;
    same = out.same;
    gives = out.gives;
    members = (λ j h. subst (λ l. In j l) (sym out.same_ring) h);
    can_read = out.can_read;
    can_write = out.can_write;
  }
  read_into-Outcome s n (some i, s1) out = elim (Bool-cases (s1.buf i).uptodate) [
    | inl up ↦ rw up (up_to_date s s1 n i out up)
    | inr stale ↦ elim (Bool-cases (s1.disk.can_read n)) [
      | inl ok ↦
          let ok' = ap (λ a. s1.disk.can_read a) (num s s1 n i out) ∙ ok in
          let w = loaded s s1 n i out stale in
          let up : ((put_buffer i w s1).buf i).uptodate ≡ true =
            ap (λ (x : Buffer). x.uptodate) (update_self s1.buf i w) in
          rw (stale, read_good s1 i ok', up) (read_in s s1 n i out stale)
      | inr bad ↦
          let bad' = ap (λ a. s1.disk.can_read a) (num s s1 n i out) ∙ bad in
          let w = garbled s s1 n i out stale in
          let up : ((put_buffer i w s1).buf i).uptodate ≡ false =
            ap (λ (x : Buffer). x.uptodate) (update_self s1.buf i w) ∙ stale in
          rw (stale, read_bad s1 i bad', up) (read_failed s s1 n i out stale bad)
    ]
  ]

  -- bread() on the one device of a well-formed cache whose changed buffers can be written: the cache
  -- stays well-formed and the cache and the disk together hold the same of every block; the call
  -- waits only if no buffer has the block and every buffer is in use, gives NULL only if the block
  -- cannot be read, and else a buffer of the block, up to date and with its bytes, that has one more
  -- reference or its first, while the others keep theirs.
  pub bread_lem :
      (s : BufferCache) (n : ℕ) → IsValid dev s → Writable s → ReadOutcome dev s n (bread dev n s)
  unfolding bread
  bread_lem s n v writable =
      read_into-Outcome s n (getblk dev n s) (getblk_lem dev there s n v writable)
