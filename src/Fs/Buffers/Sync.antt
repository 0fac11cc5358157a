-- ===== src/Fs/Buffers/Sync.antt =====
-- The loop of sync_dev() over the ring leaves no changes.
use linux.Base.{
  ℕ, ◌≡◌, ◌≢◌, ◌⊎◌, ◌<◌, refl, sym, ap, subst, ◌∙◌, inl, inr, Bool, true, false, ◌&&◌, List, [],
  ◌∷◌, ◌==◌, Bool-cases, arith,
}
use native.Mathlib.Decide.{ℕ_discrete}
use linux.Fs.Bitmap.Truncate.{In}
use linux.Fs.Inodes.Content.{true-false}
use linux.Fs.Buffers.Defs.{nr_buffers, Buffer, BufferCache, is_block, write_buffer, sync_ring}
use linux.Fs.Buffers.Cached.{
  IsValid, content, content-buffer, content-disk, somewhere, is_block_parts,
}
use linux.Fs.Buffers.Getblk.{SameContent, Flushed, write_buffer-Flushed}

abbrev pub CanWrite : BufferCache → Type 0
CanWrite s = (n : ℕ) → s.disk.can_write n ≡ true

-- What the loop leaves of the buffers `is`.
pub record Synced (dev : ℕ) (is : List ℕ) (s : BufferCache) (s' : BufferCache) : Type 0 where
  pub valid : IsValid dev s'
  pub same : SameContent dev s s'
  pub clean : (j : ℕ) → In j is → (s'.buf j).dirt ≡ false
  pub stays_clean : (j : ℕ) → (s.buf j).dirt ≡ false → (s'.buf j).dirt ≡ false
  pub counts : (j : ℕ) → (s'.buf j).count ≡ (s.buf j).count
  pub keys : (n j : ℕ) → is_block dev n (s'.buf j) ≡ is_block dev n (s.buf j)
  pub same_ring : s'.free ≡ s.free
  pub can_read : s'.disk.can_read ≡ s.disk.can_read
  pub can_write : s'.disk.can_write ≡ s.disk.can_write

module _ (dev : ℕ) (there : dev ≢ 0) where
  abbrev due : Buffer → Bool
  due b = (b.dev == dev) && b.dirt

  not_due :
      (s : BufferCache) (i : ℕ)
      → IsValid dev s
      → i < nr_buffers
      → due (s.buf i) ≡ false
      → (s.buf i).dirt ≡ false
  not_due s i v low e = elim (Bool-cases (s.buf i).dirt) [
    | inr clean ↦ clean
    | inl dirty ↦ elim (v.one_dev i low) [
      | inl z ↦ v.unused_clean i low z
      | inr own ↦ absurd (true-false (both own dirty) e)
    ]
  ]
    where
      both : (s.buf i).dev ≡ dev → (s.buf i).dirt ≡ true → due (s.buf i) ≡ true
      both a b = ground arith

  Synced-more :
      (i : ℕ) (is : List ℕ) (s s1 s2 : BufferCache)
      → Flushed dev s i s1
      → Synced dev is s1 s2
      → Synced dev (i ∷ is) s s2
  Synced-more i is s s1 s2 f r = record {
    valid = r.valid;
    same = (λ m. r.same m ∙ f.same m);
    clean = (λ j h. go j h);
    stays_clean = (λ j e. elim (ℕ_discrete i j) [
      | yes k ↦ r.stays_clean j (subst (λ a. (s1.buf a).dirt ≡ false) k f.clean)
      | no d ↦ r.stays_clean j (ap (λ (x : Buffer). x.dirt) (f.others j d) ∙ e)
    ]);
    counts = (λ j. r.counts j ∙ (elim (ℕ_discrete i j) [
      | yes k ↦ subst (λ a. (s1.buf a).count ≡ (s.buf a).count) k f.count
      | no d ↦ ap (λ (x : Buffer). x.count) (f.others j d)
    ]));
    keys = (λ n j. r.keys n j ∙ f.keys n j);
    same_ring = r.same_ring ∙ f.same_ring;
    can_read = r.can_read ∙ f.can_read;
    can_write = r.can_write ∙ f.can_write;
  }
    where
      go : (j : ℕ) → (i ≡ j) ⊎ In j is → (s2.buf j).dirt ≡ false
      go j (inl e) = r.stays_clean j (subst (λ a. (s1.buf a).dirt ≡ false) e f.clean)
      go j (inr h) = r.clean j h

  sync_ring-Synced :
      (is : List ℕ) (s : BufferCache)
      → IsValid dev s
      → CanWrite s
      → ((j : ℕ) → In j is → j < nr_buffers)
      → Synced dev is s (sync_ring is dev s).1
  unfolding sync_ring
  sync_ring-Synced [] s v writes low = record {
    valid = v;
    same = (λ m. refl);
    clean = (λ j h. absurd h);
    stays_clean = (λ j e. e);
    counts = (λ j. refl);
    keys = (λ n j. refl);
    same_ring = refl;
    can_read = refl;
    can_write = refl;
  }
  sync_ring-Synced (i ∷ is) s v writes low = elim (Bool-cases (due (s.buf i))) [
    | inl e ↦
        let dirty : (s.buf i).dirt ≡ true = ground arith in
        let s1 = write_buffer i s in
        let f =
          write_buffer-Flushed dev there s i v (low i (inl refl)) dirty (writes (s.buf i).num) in
        rw e (
          Synced-more i is s s1 _ f (
            sync_ring-Synced is s1 f.valid (λ n. ap (λ (g : ℕ → Bool). g n) f.can_write ∙ writes n)
              (λ j h. low j (inr h))))
    | inr e ↦
        let r = sync_ring-Synced is s v writes (λ j h. low j (inr h)) in
        rw e (record {
          valid = r.valid;
          same = r.same;
          clean = (λ j h. go (sync_ring is dev s).1 r (not_due s i v (low i (inl refl)) e) j h);
          stays_clean = r.stays_clean;
          counts = r.counts;
          keys = r.keys;
          same_ring = r.same_ring;
          can_read = r.can_read;
          can_write = r.can_write;
        })
  ]
    where
      go :
          (s' : BufferCache)
          → Synced dev is s s'
          → (s.buf i).dirt ≡ false
          → (j : ℕ) → (i ≡ j) ⊎ In j is
          → (s'.buf j).dirt ≡ false
      go s' r clean j (inl e) = r.stays_clean j (subst (λ a. (s.buf a).dirt ≡ false) e clean)
      go s' r clean j (inr h) = r.clean j h

  pub sync_all-Synced :
      (s : BufferCache)
      → IsValid dev s
      → CanWrite s
      → Synced dev s.free s (sync_ring s.free dev s).1
  sync_all-Synced s v writes = sync_ring-Synced s.free s v writes (λ j h. v.ring j h)

  -- Where no buffer has changes, the disk has every block.
  pub clean-disk :
      (s' : BufferCache) (m : ℕ)
      → IsValid dev s'
      → ((j : ℕ) → j < nr_buffers → (s'.buf j).dirt ≡ false)
      → s'.disk.blocks m ≡ content dev s' m
  clean-disk s' m valid clean = elim (somewhere dev there s' valid m) [
    | inr none_has ↦ sym (content-disk dev there s' valid m none_has)
    | inl (j, low, hit) ↦ elim (Bool-cases (s'.buf j).uptodate) [
      | inr stale ↦ sym (content-buffer dev there s' valid j m low hit ∙ rw stale refl)
      | inl up ↦
          let (d, k) = is_block_parts dev m (s'.buf j) hit in
          ap (λ a. s'.disk.blocks a) (sym k)
          ∙ sym (valid.synced j low (λ z. there (sym d ∙ z)) up (clean j low))
          ∙ sym (content-buffer dev there s' valid j m low hit ∙ rw up refl)
    ]
  ]
