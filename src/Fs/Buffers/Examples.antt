-- ===== src/Fs/Buffers/Examples.antt =====
-- Runs of the cache on a small disk.
use linux.Base.{ℕ, ◌≡◌, ◌≢◌, ◌<◌, refl, inl, true, not, some, [], ◌∷◌, ◌==◌, update, arith}
use linux.Fs.Bitmap.Truncate.{In}
use linux.Fs.Buffers.Defs.{
  nr_buffers, Disk, BufferCache, chain_index, xor_bits, first_in, without, recycle, ring_from,
  write_buffer, getblk, brelse, bread, InodeWrite, sync_dev, buffer_init,
}
use linux.Fs.Buffers.Cached.{IsValid, content, Nowhere}
use linux.Fs.Buffers.Getblk.{Writable, Outcome, getblk_lem}
use linux.Fs.Buffers.Bread.{ReadOutcome, bread_lem}
use linux.Fs.Buffers.Through.{sync_dev_lem}
use linux.Fs.Buffers.Order.{getblk-brelse}
use linux.Fs.Buffers.Store.{
  load_block, store_block, sync_blocks, answers, array_answers, with_inodes, Works,
}
use linux.Fs.Buffers.Refine.{answers-array}
use linux.Fs.Buffers.Init.{buffer_init-IsValid, ring_complete, buffer_init_lem}

abbrev hd1 : ℕ
hd1 = 769

abbrev small_disk : Disk
small_disk = record {
  blocks = (λ n i. n);
  can_read = (λ n. true);
  can_write = (λ n. true);
  torn = (λ n b. b);
}

abbrev booted : BufferCache
booted = buffer_init (λ i k. 0) small_disk

-- The hash of block 5 of the first partition.
chain_of : chain_index hd1 5 ≡ 4
unfolding xor_bits
chain_of = refl

some_dev : hd1 ≢ 0
some_dev e = omega (arith, e)

-- A buffer of block 3 with a change, in a cache on a disk that block 3 cannot be written to.
abbrev stuck_disk : Disk
stuck_disk = record small_disk { can_write = (λ n. not (n == 3)) }

abbrev changed_cache : BufferCache
changed_cache = record (buffer_init (λ i k. 0) stuck_disk) {
  buf =
      update (buffer_init (λ i k. 0) stuck_disk).buf 0
        (record { bytes = (λ k. 42); dev = hd1; num = 3; uptodate = true; dirt = true; count = 0 });
  chain = update (λ h. []) 2 (0 ∷ []);
}

held_before : content hd1 changed_cache 3 7 ≡ 42
unfolding content buffer_init xor_bits first_in
held_before = refl

-- getblk() of another block takes the buffer although its write failed: the change is lost.
lost_after : content hd1 (getblk hd1 9 changed_cache).1 3 7 ≡ 3
unfolding content getblk buffer_init xor_bits first_in write_buffer recycle without ring_from
lost_after = refl

booted-Works : Works booted
unfolding buffer_init
booted-Works = record {
  reads = (λ n. refl);
  writes = (λ n. refl);
  spare = 0;
  in_ring = ring_complete (λ i k. 0) small_disk 0 (omega arith);
  idle = refl;
}

buffer_init_lem_example :
    IsValid hd1 booted
    × ((i : ℕ) → i < nr_buffers → In i booted.free)
    × ((i : ℕ) → (booted.buf i).count ≡ 0)
    × ((n : ℕ) → content hd1 booted n ≡ small_disk.blocks n)
buffer_init_lem_example = buffer_init_lem (λ i k. 0) small_disk hd1 some_dev

no_changes : Writable booted
unfolding buffer_init
no_changes i low dirty = refl

getblk_lem_example : Outcome hd1 some_dev booted 5 (getblk hd1 5 booted)
getblk_lem_example =
    getblk_lem hd1 some_dev booted 5 (buffer_init-IsValid (λ i k. 0) small_disk hd1 some_dev)
      no_changes

bread_lem_example : ReadOutcome hd1 booted 5 (bread hd1 5 booted)
bread_lem_example =
    bread_lem hd1 some_dev booted 5 (buffer_init-IsValid (λ i k. 0) small_disk hd1 some_dev)
      no_changes

-- An inode that changes the first byte of block 5.
abbrev changed_inode : InodeWrite
changed_inode = record { block = 5; edit = (λ b. update b 0 9) }

sync_dev_lem_example :
    (sync_dev hd1 (changed_inode ∷ []) booted).1.disk.blocks 5
    ≡ with_inodes (changed_inode ∷ []) (content hd1 booted) 5
sync_dev_lem_example =
    sync_dev_lem hd1 some_dev (changed_inode ∷ []) booted 5
      (buffer_init-IsValid (λ i k. 0) small_disk hd1 some_dev) booted-Works
      (ring_complete (λ i k. 0) small_disk)

answers-array_example :
    answers hd1
      (store_block 5 (λ k. 7) ∷ load_block 9 ∷ sync_blocks (changed_inode ∷ []) ∷ load_block 5 ∷ [])
      booted
    ≡ array_answers
        (store_block 5 (λ k. 7)
          ∷ load_block 9
          ∷ sync_blocks (changed_inode ∷ [])
          ∷ load_block 5
          ∷ [])
        small_disk.blocks
answers-array_example =
    answers-array hd1 some_dev
      (store_block 5 (λ k. 7) ∷ load_block 9 ∷ sync_blocks (changed_inode ∷ []) ∷ load_block 5 ∷ [])
      booted small_disk.blocks (buffer_init-IsValid (λ i k. 0) small_disk hd1 some_dev) booted-Works
      ((buffer_init_lem (λ i k. 0) small_disk hd1 some_dev).3)

-- Buffer 0 has block 3, with one reference.
abbrev one_in_use : BufferCache
one_in_use = (getblk hd1 3 booted).1

one_in_use-buffer :
    (In 0 one_in_use.free) × ((one_in_use.buf 0).count ≡ 1) × Nowhere hd1 5 one_in_use
unfolding getblk buffer_init xor_bits first_in recycle without ring_from
one_in_use-buffer = (inl refl, refl, (λ i low. ground arith))

getblk-brelse_example : (getblk hd1 5 (brelse 0 one_in_use)).0 ≡ some 0
getblk-brelse_example =
    getblk-brelse hd1 some_dev one_in_use 0 5
      (getblk_lem hd1 some_dev booted 3 (buffer_init-IsValid (λ i k. 0) small_disk hd1 some_dev)
        no_changes).valid
      one_in_use-buffer.0 one_in_use-buffer.1 one_in_use-buffer.2
