-- ===== src/Fs/Buffers/Through.antt =====
-- sync_dev() puts every block on the disk, with the changes of the inodes.
use linux.Base.{
  ℕ, ◌≡◌, ◌≢◌, ◌<◌, refl, sym, ap, subst, ◌∙◌, inl, inr, Bool, true, false, Option, none, some,
  List, [], ◌∷◌, ◌==◌, update, update_self, update_ne, each, Bool-cases, arith,
}
use native.Mathlib.Decide.{ℕ_discrete}
use linux.Fs.Bitmap.Truncate.{In}
use linux.Fs.Files.{Block}
use linux.Fs.Inodes.Content.{true-false}
use linux.Fs.Buffers.Defs.{
  nr_buffers, Buffer, BufferCache, is_block, put_buffer, chain_index, first_in, is_unused,
  read_buffer, write_buffer, write_back, recycle, recycled, one_more, one_fewer, reuse, hit_or,
  getblk, brelse, Bread, waits, failed, ready, read_into, bread, dirtied, InodeWrite, put_inode,
  sync_ring, sync_inodes, sync_dev,
}
use linux.Fs.Buffers.Cached.{IsValid, content}
use linux.Fs.Buffers.Getblk.{write_buffer-Flushed}
use linux.Fs.Buffers.Ring.{brelse-Released}
use linux.Fs.Buffers.Bread.{ReadOutcome, bread_lem}
use linux.Fs.Buffers.Sync.{sync_all-Synced, clean-disk}
use linux.Fs.Buffers.Store.{Works, with_inodes}
use linux.Fs.Buffers.Dirtied.{put_dirtied, same_counts, update_same, idle_again}

-- A buffer without changes has none afterwards.
abbrev StaysClean : BufferCache → BufferCache → Type 0
StaysClean s s' = (j : ℕ) → (s.buf j).dirt ≡ false → (s'.buf j).dirt ≡ false

put_buffer-StaysClean :
    (i : ℕ) (b : Buffer) (s : BufferCache)
    → ((s.buf i).dirt ≡ false → b.dirt ≡ false)
    → StaysClean s (put_buffer i b s)
put_buffer-StaysClean i b s h =
    each (λ j x. (s.buf j).dirt ≡ false → x.dirt ≡ false) s.buf i b h (λ j d e. e)

read_buffer-StaysClean : (i : ℕ) (s : BufferCache) → StaysClean s (read_buffer i s)
unfolding read_buffer
read_buffer-StaysClean i s = elim (Bool-cases (s.disk.can_read (s.buf i).num)) [
  | inl e ↦ rw e (put_buffer-StaysClean i _ s (λ h. h))
  | inr e ↦ rw e (put_buffer-StaysClean i _ s (λ h. h))
]

write_buffer-StaysClean : (i : ℕ) (s : BufferCache) → StaysClean s (write_buffer i s)
unfolding write_buffer
write_buffer-StaysClean i s = elim (Bool-cases (s.disk.can_write (s.buf i).num)) [
  | inl e ↦ rw e (put_buffer-StaysClean i _ s (λ h. refl))
  | inr e ↦ rw e (λ j h. h)
]

write_back-StaysClean : (i : ℕ) (s : BufferCache) → StaysClean s (write_back i s)
write_back-StaysClean i s = elim (Bool-cases (s.buf i).dirt) [
  | inl e ↦ rw e (write_buffer-StaysClean i s)
  | inr e ↦ rw e (λ j h. h)
]

brelse-StaysClean : (i : ℕ) (s : BufferCache) → StaysClean s (brelse i s)
unfolding brelse
brelse-StaysClean i s = elim (Bool-cases ((one_fewer (s.buf i)).count == 0)) [
  | inl e ↦ rw e (put_buffer-StaysClean i _ s (λ h. h))
  | inr e ↦ rw e (put_buffer-StaysClean i _ s (λ h. h))
]

recycle-StaysClean : (dev block i : ℕ) (s : BufferCache) → StaysClean s (recycle dev block i s)
unfolding recycle
recycle-StaysClean dev block i s =
    put_buffer-StaysClean i (recycled dev block (s.buf i)) s (λ h. refl)

getblk-StaysClean : (dev n : ℕ) (s : BufferCache) → StaysClean s (getblk dev n s).1
unfolding getblk
getblk-StaysClean dev n s =
    hits (first_in (is_block dev n) s.buf (s.chain (chain_index dev n)))
      (first_in is_unused s.buf s.free)
  where
    hits : (a b : Option ℕ) → StaysClean s (hit_or a s (reuse dev n b s)).1
    hits (some i) b = put_buffer-StaysClean i (one_more (s.buf i)) s (λ h. h)
    hits none none = λ j h. h
    hits none (some i) =
        λ j h. recycle-StaysClean dev n i (write_back i s) j (write_back-StaysClean i s j h)

read_into-StaysClean :
    (s : BufferCache) (r : Option ℕ × BufferCache) → StaysClean s r.1 → StaysClean s (read_into r).1
read_into-StaysClean s (none, s1) h = h
read_into-StaysClean s (some i, s1) h = elim (Bool-cases (s1.buf i).uptodate) [
  | inl e ↦ rw e h
  | inr e ↦ rw e (elim (Bool-cases ((read_buffer i s1).buf i).uptodate) [
    | inl f ↦ rw f (λ j c. read_buffer-StaysClean i s1 j (h j c))
    | inr f ↦
        rw f
          (λ j c. brelse-StaysClean i (read_buffer i s1) j (read_buffer-StaysClean i s1 j (h j c)))
  ])
]

bread-StaysClean : (dev n : ℕ) (s : BufferCache) → StaysClean s (bread dev n s).1
unfolding bread
bread-StaysClean dev n s = read_into-StaysClean s (getblk dev n s) (getblk-StaysClean dev n s)

pub with_inodes_cong :
    (xs : List InodeWrite) (a b : ℕ → Block)
    → ((m : ℕ) → a m ≡ b m)
    → (m : ℕ) → with_inodes xs a m ≡ with_inodes xs b m
unfolding with_inodes
with_inodes_cong [] a b same = same
with_inodes_cong (x ∷ xs) a b same =
    with_inodes_cong xs (update a x.block (x.edit (a x.block)))
      (update b x.block (x.edit (b x.block)))
      (λ m.
        update_same x.block (x.edit (a x.block)) same m
        ∙ ap (λ f. update b x.block (x.edit f) m) (same x.block))

module _ (dev : ℕ) (there : dev ≢ 0) where
  -- What writing the inodes `xs` back makes of the cache.
  pub record Through (xs : List InodeWrite) (s s' : BufferCache) : Type 0 where
    pub valid : IsValid dev s'
    pub works : Works s'
    pub same : (m : ℕ) → content dev s' m ≡ with_inodes xs (content dev s) m
    pub clean : StaysClean s s'

  put_inode-Through :
      (x : InodeWrite) (s : BufferCache) (r : Bread × BufferCache)
      → Works s
      → ReadOutcome dev s x.block r
      → StaysClean s r.1
      → Through (x ∷ []) s (put_inode x r)
  unfolding with_inodes
  put_inode-Through x s (waits, s1) w out c =
      absurd (let busy = out.gives.1 w.spare w.in_ring in let idle = w.idle in ground arith)
  put_inode-Through x s (failed, s1) w out c = absurd (true-false (w.reads x.block) out.gives)
  put_inode-Through x s (ready i, s1) w out c =
      let (low, at, up, bytes, count, others) = out.gives in
      let f = x.edit (s1.buf i).bytes in
      let b = dirtied f (s1.buf i) in
      let s2 = put_buffer i b s1 in
      let (valid2, same2) = put_dirtied dev there s1 i x.block f out.valid low at up in
      let self = update_self s1.buf i b in
      let s3 = write_buffer i s2 in
      let can_write : s2.disk.can_write (s2.buf i).num ≡ true =
        ap (λ (g : ℕ → Bool). g (s2.buf i).num) out.can_write ∙ w.writes (s2.buf i).num in
      let flushed =
        write_buffer-Flushed dev there s2 i valid2 low (ap (λ (y : Buffer). y.dirt) self)
          can_write in
      let r = brelse-Released dev there s3 i flushed.valid low in
      record {
        valid = r.valid;
        works =
            idle_again dev there s x.block i s1 s3 (brelse i s3) w out
              (λ j.
                (elim (ℕ_discrete i j) [
                  | yes e ↦ subst (λ k. (s3.buf k).count ≡ (s2.buf k).count) e flushed.count
                  | no d ↦ ap (λ (y : Buffer). y.count) (flushed.others j d)
                ])
                ∙ same_counts s1 i f j)
              flushed.same_ring flushed.can_read flushed.can_write r;
        same = (λ m.
            r.same m
            ∙ flushed.same m
            ∙ same2 m
            ∙ update_same x.block f out.same m
            ∙ ap (λ g. update (content dev s) x.block (x.edit g) m) bytes);
        clean = (λ j h. brelse-StaysClean i s3 j (elim (ℕ_discrete i j) [
          | yes e ↦ subst (λ k. (s3.buf k).dirt ≡ false) e flushed.clean
          | no d ↦
              ap (λ (y : Buffer). y.dirt) (flushed.others j d ∙ update_ne s1.buf i j b d) ∙ c j h
        ]));
      }

  sync_inodes-Through :
      (xs : List InodeWrite) (s : BufferCache)
      → IsValid dev s
      → Works s
      → Through xs s (sync_inodes dev xs s)
  unfolding sync_inodes with_inodes
  sync_inodes-Through [] s v w = record {
    valid = v;
    works = w;
    same = (λ m. refl);
    clean = (λ j h. h);
  }
  sync_inodes-Through (x ∷ xs) s v w =
      let first =
        put_inode-Through x s (bread dev x.block s) w
          (bread_lem dev there s x.block v (λ i low dirty. w.writes (s.buf i).num))
          (bread-StaysClean dev x.block s) in
      let rest =
        sync_inodes-Through xs (put_inode x (bread dev x.block s)) first.valid first.works in
      record {
        valid = rest.valid;
        works = rest.works;
        same = (λ m. rest.same m ∙ with_inodes_cong xs _ _ first.same m);
        clean = (λ j h. rest.clean j (first.clean j h));
      }

  ring-Works : (s : BufferCache) → IsValid dev s → Works s → Works (sync_ring s.free dev s).1
  ring-Works s v w =
      let r = sync_all-Synced dev there s v w.writes in
      record {
        reads = (λ m. ap (λ (f : ℕ → Bool). f m) r.can_read ∙ w.reads m);
        writes = (λ m. ap (λ (f : ℕ → Bool). f m) r.can_write ∙ w.writes m);
        spare = w.spare;
        in_ring = subst (λ l. In w.spare l) (sym r.same_ring) w.in_ring;
        idle = r.counts w.spare ∙ w.idle;
      }

  -- sync_dev() keeps the cache well-formed, and its contents but for the changes of the inodes.
  pub sync_dev-Through :
      (xs : List InodeWrite) (s : BufferCache)
      → IsValid dev s
      → Works s
      → Through xs s (sync_dev dev xs s).1
  unfolding sync_dev
  sync_dev-Through xs s v w =
      let r = sync_all-Synced dev there s v w.writes in
      let works = ring-Works s v w in
      let t = sync_inodes-Through xs (sync_ring s.free dev s).1 r.valid works in
      record {
        valid = t.valid;
        works = t.works;
        same = (λ m. t.same m ∙ with_inodes_cong xs _ _ r.same m);
        clean = (λ j h. t.clean j (r.stays_clean j h));
      }

  -- After sync_dev() of the one device of a well-formed cache whose ring has every buffer, one of
  -- them unused, on a disk that can be read and written: the disk itself has of every block what the
  -- cache and the disk held before, with the changes that the dirty inodes make to their blocks, one
  -- after another.
  pub sync_dev_lem :
      (xs : List InodeWrite) (s : BufferCache) (m : ℕ)
      → IsValid dev s
      → Works s
      → ((i : ℕ) → i < nr_buffers → In i s.free)
      → (sync_dev dev xs s).1.disk.blocks m ≡ with_inodes xs (content dev s) m
  unfolding sync_dev
  sync_dev_lem xs s m v w all =
      let t = sync_dev-Through xs s v w in
      clean-disk dev there (sync_dev dev xs s).1 m t.valid (λ j low. after_ring j (all j low))
      ∙ t.same m
    where
      after_ring : (j : ℕ) → In j s.free → ((sync_dev dev xs s).1.buf j).dirt ≡ false
      after_ring j h =
          let r = sync_all-Synced dev there s v w.writes in
          (sync_inodes-Through xs (sync_ring s.free dev s).1 r.valid (ring-Works s v w)).clean j
            (r.clean j h)
