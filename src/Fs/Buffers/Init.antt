-- ===== src/Fs/Buffers/Init.antt =====
-- The cache that buffer_init() makes.
use linux.Base.{
  ℕ, zero, suc, ◌+◌, ◌≡◌, ◌≢◌, ◌≤◌, ◌<◌, refl, inl, inr, true, false, ◌&&◌, ◌==◌, arith,
}
use native.Mathlib.Decide.{ℕ_discrete}
use linux.Fs.Bitmap.Truncate.{In}
use linux.Fs.Files.{Block}
use linux.Fs.Buffers.Defs.{nr_buffers, Disk, ring_from, buffer_init}
use linux.Fs.Buffers.Cached.{IsValid, content, content-disk}

ring_from-In : (n i j : ℕ) → i ≤ j → j < i + n → In j (ring_from n i)
unfolding ring_from
ring_from-In zero i j low high = absurd (omega arith)
ring_from-In (suc n) i j low high = elim (ℕ_discrete i j) [
  | yes e ↦ inl e
  | no d ↦ inr (ring_from-In n (suc i) j (omega arith) (omega arith))
]

In-ring_from : (n i j : ℕ) → In j (ring_from n i) → j < i + n
unfolding ring_from
In-ring_from zero i j h = absurd h
In-ring_from (suc n) i j (inl e) = omega arith
In-ring_from (suc n) i j (inr h) = let g = In-ring_from n (suc i) j h in omega arith

module _ (memory : ℕ → Block) (disk : Disk) where
  pub ring_complete : (i : ℕ) → i < nr_buffers → In i (buffer_init memory disk).free
  unfolding buffer_init
  ring_complete i low = ring_from-In nr_buffers 0 i (omega arith) (omega arith)

  pub buffer_init-IsValid : (dev : ℕ) → dev ≢ 0 → IsValid dev (buffer_init memory disk)
  unfolding buffer_init
  buffer_init-IsValid dev there = record {
    ring = (λ i h. let g = In-ring_from nr_buffers 0 i h in omega arith);
    chained = (λ h i k. absurd k);
    found = (λ i low nz. absurd (nz refl));
    single = (λ i j n hi hj a b. absurd (not_ours n a));
    one_dev = (λ i low. inl refl);
    unused_clean = (λ i low e. refl);
    dirty_fresh = (λ i low e. e);
    synced = (λ i low nz u c. absurd (nz refl));
  }
    where
      not_ours : (n : ℕ) → (0 == dev) && (0 == n) ≡ true → ⊥
      not_ours n e = ground (arith, there)

  -- The cache that buffer_init() makes is well-formed for every device, its ring has every buffer,
  -- none of them is in use, and every block has the bytes of the disk.
  pub buffer_init_lem :
      (dev : ℕ)
      → dev ≢ 0
      → IsValid dev (buffer_init memory disk)
        × ((i : ℕ) → i < nr_buffers → In i (buffer_init memory disk).free)
        × ((i : ℕ) → ((buffer_init memory disk).buf i).count ≡ 0)
        × ((n : ℕ) → content dev (buffer_init memory disk) n ≡ disk.blocks n)
  unfolding buffer_init
  buffer_init_lem dev there = (
    buffer_init-IsValid dev there,
    ring_complete,
    (λ i. refl),
    (λ n.
        content-disk dev there (buffer_init memory disk) (buffer_init-IsValid dev there) n
          (λ i low. elsewhere n)),
  )
    where
      elsewhere : (n : ℕ) → (0 == dev) && (0 == n) ≡ false
      elsewhere n = ground (arith, there)
