-- ===== src/Fs/Buffers/Dirtied.antt =====
-- A buffer that bread() gave gets other bytes, and is given back.
use linux.Base.{
  ℕ, ◌+◌, ◌%◌, ◌≡◌, ◌≢◌, ◌⊎◌, ◌<◌, refl, sym, ap, subst, ◌∙◌, inl, inr, Bool, true, false, update,
  update_self, update_ne, each, Bool-cases, arith,
}
use native.Mathlib.Decide.{ℕ_discrete}
use linux.Fs.Bitmap.Truncate.{In}
use linux.Fs.Files.{Block}
use linux.Fs.Inodes.Content.{true-false}
use linux.Fs.Buffers.Defs.{
  nr_buffers, Buffer, Disk, BufferCache, is_block, put_buffer, ready, dirtied,
}
use linux.Fs.Buffers.Cached.{IsValid, content, is_block_parts}
use linux.Fs.Buffers.Change.{changed-IsValid, content-changed_own, content-changed_other}
use linux.Fs.Buffers.Ring.{Released}
use linux.Fs.Buffers.Bread.{ReadOutcome}
use linux.Fs.Buffers.Store.{Works}

pub same_counts :
    (s : BufferCache) (i : ℕ) (f : Block) (j : ℕ)
    → ((put_buffer i (dirtied f (s.buf i)) s).buf j).count ≡ (s.buf j).count
same_counts s i f j =
    each (λ j x. x.count ≡ (s.buf j).count) s.buf i (dirtied f (s.buf i)) refl (λ j d. refl) j

-- A change of one block, in arrays that agree.
pub update_same :
    {a b : ℕ → Block} (n : ℕ) (f : Block)
    → ((m : ℕ) → a m ≡ b m)
    → (m : ℕ) → update a n f m ≡ update b n f m
update_same {a} {b} n f same m = elim (ℕ_discrete n m) [
  | yes e ↦
      subst (λ k. update a n f k ≡ update b n f k) e (update_self a n f ∙ sym (update_self b n f))
  | no d ↦ update_ne a n m f d ∙ same m ∙ sym (update_ne b n m f d)
]

module _ (dev : ℕ) (there : dev ≢ 0) where
  -- After brelse() of the buffer that bread() gave, the unused buffer is unused again.
  pub idle_again :
      (s : BufferCache) (n i : ℕ) (s1 s2 s3 : BufferCache)
      → Works s
      → ReadOutcome dev s n (ready i, s1)
      → ((j : ℕ) → (s2.buf j).count ≡ (s1.buf j).count)
      → s2.free ≡ s1.free
      → s2.disk.can_read ≡ s1.disk.can_read
      → s2.disk.can_write ≡ s1.disk.can_write
      → Released dev there s2 i s3
      → Works s3
  idle_again s n i s1 s2 s3 w out counts ring can_r can_w r = record {
    reads = (λ m.
        ap (λ (x : Disk). x.can_read m) r.same_disk
        ∙ ap (λ (f : ℕ → Bool). f m) can_r
        ∙ ap (λ (f : ℕ → Bool). f m) out.can_read
        ∙ w.reads m);
    writes = (λ m.
        ap (λ (x : Disk). x.can_write m) r.same_disk
        ∙ ap (λ (f : ℕ → Bool). f m) can_w
        ∙ ap (λ (f : ℕ → Bool). f m) out.can_write
        ∙ w.writes m);
    spare = w.spare;
    in_ring =
        r.members w.spare (subst (λ l. In w.spare l) (sym ring) (out.members w.spare w.in_ring));
    idle = elim (ℕ_discrete i w.spare) [
      | no d ↦
          ap (λ (b : Buffer). b.count) (r.others w.spare d)
          ∙ counts w.spare
          ∙ out.gives.5 w.spare d
          ∙ w.idle
      | yes e ↦
          subst (λ k. (s3.buf k).count ≡ 0) e
            (ap (λ (b : Buffer). b.count) r.own
              ∙ ap (λ c. (c + 255) % 256) (counts i)
              ∙ back (subst (λ k. (s.buf k).count ≡ 0) (sym e) w.idle) out.gives.4)
    ];
  }
    where
      back :
          (s.buf i).count ≡ 0
          → (((s1.buf i).count ≡ ((s.buf i).count + 1) % 256)
              ⊎ (((s.buf i).count ≡ 0) × ((s1.buf i).count ≡ 1)))
          → ((s1.buf i).count + 255) % 256 ≡ 0
      back z (inl e) = omega arith
      back z (inr (a, e)) = omega arith

  -- The block of the buffer has the new bytes, and every other block what it had.
  pub put_dirtied :
      (s1 : BufferCache) (i n : ℕ) (f : Block)
      → IsValid dev s1
      → i < nr_buffers
      → is_block dev n (s1.buf i) ≡ true
      → (s1.buf i).uptodate ≡ true
      → IsValid dev (put_buffer i (dirtied f (s1.buf i)) s1)
        × ((m : ℕ)
            → content dev (put_buffer i (dirtied f (s1.buf i)) s1) m
              ≡ update (content dev s1) n f m)
  put_dirtied s1 i n f v low at up =
      let b = dirtied f (s1.buf i) in
      let own_dev : b.dev ≡ dev = (is_block_parts dev n (s1.buf i) at).0 in
      let clean : b.dev ≢ 0 → b.uptodate ≡ true → b.dirt ≡ false → b.bytes ≡ s1.disk.blocks b.num =
        (λ x y z. absurd (true-false refl z)) in
      let unused : b.dev ≡ 0 → b.dirt ≡ false = (λ z. absurd (there (sym own_dev ∙ z))) in
      (
        changed-IsValid dev there s1 i b s1.disk.blocks v low refl refl (λ m e. refl) (λ e. up)
            clean unused,
        (λ m. elim (ℕ_discrete n m) [
          | yes e ↦
              content-changed_own dev there s1 i b s1.disk.blocks v low refl refl (λ m e. refl)
                (λ e. up) clean unused m (subst (λ k. is_block dev k (s1.buf i) ≡ true) e at)
              ∙ rw up (
                  subst (λ k. f ≡ update (content dev s1) n f k) e
                    (sym (update_self (content dev s1) n f)))
          | no d ↦
              content-changed_other dev there s1 i b s1.disk.blocks v low refl refl (λ m e. refl)
                (λ e. up) clean unused m (not_other m d)
              ∙ sym (update_ne (content dev s1) n m f d)
        ]),
      )
    where
      not_other : (m : ℕ) → n ≢ m → is_block dev m (s1.buf i) ≡ false
      not_other m d = elim (Bool-cases (is_block dev m (s1.buf i))) [
        | inr miss ↦ miss
        | inl hit ↦ absurd (
            d (
              sym (is_block_parts dev n (s1.buf i) at).1 ∙ (is_block_parts dev m (s1.buf i) hit).1))
      ]
