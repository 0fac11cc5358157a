-- ===== src/Fs/Buffers/Defs.antt =====
-- The NR_BUFFERS heads as a function of their index, the hash chains as lists, and the ring of the
-- free list as the list that starts at free_list. A call runs here without another task in between,
-- so b_lock and b_wait are left out. The disk driver is a parameter.
use linux.Base.{
  ℕ, zero, suc, ◌+◌, ◌*◌, ◌/◌, ◌%◌, Bool, true, false, ◌&&◌, Option, none, some, List, [], ◌∷◌,
  ◌++◌, ◌==◌, if◌then◌else◌, update,
}
use linux.Fs.Files.{Block}

abbrev pub nr_buffers : ℕ
nr_buffers = 256

pub record Buffer : Type 0 where
  pub bytes : Block
  pub dev : ℕ
  pub num : ℕ
  pub uptodate : Bool
  pub dirt : Bool
  pub count : ℕ

-- The disk, whether a transfer of a block succeeds, and what one that fails leaves in its target.
pub record Disk : Type 0 where
  pub blocks : ℕ → Block
  pub can_read : ℕ → Bool
  pub can_write : ℕ → Bool
  pub torn : ℕ → Block → Block

pub record BufferCache : Type 0 where
  pub buf : ℕ → Buffer
  pub chain : ℕ → List ℕ
  pub free : List ℕ
  pub disk : Disk

-- The lowest `n` bits of a ^ b.
unfoldable pub xor_bits : ℕ → ℕ → ℕ → ℕ
xor_bits zero a b = 0
xor_bits (suc n) a b = (a + b) % 2 + 2 * xor_bits n (a / 2) (b / 2)

-- (dev ^ block) & (NR_BUFFERS - 1)
abbrev pub chain_index : ℕ → ℕ → ℕ
chain_index dev block = xor_bits 8 dev block

abbrev pub is_block : ℕ → ℕ → Buffer → Bool
is_block dev block b = (b.dev == dev) && (b.num == block)

-- The first buffer of a chain or of the ring that passes.
unfoldable pub first_in : (Buffer → Bool) → (ℕ → Buffer) → List ℕ → Option ℕ
first_in test buf [] = none
first_in test buf (i ∷ is) =
    let rest = first_in test buf is in if test (buf i) then some i else rest

unfoldable pub without : ℕ → List ℕ → List ℕ
without i [] = []
without i (j ∷ js) = let rest = without i js in if i == j then rest else j ∷ rest

abbrev pub put_buffer : ℕ → Buffer → BufferCache → BufferCache
put_buffer i b s = record s { buf = update s.buf i b }

abbrev pub put_disk : ℕ → Block → BufferCache → BufferCache
put_disk n b s = record s { disk = record (s.disk) { blocks = update s.disk.blocks n b } }

-- ll_rw_block(READ, bh)
unfoldable pub read_buffer : ℕ → BufferCache → BufferCache
read_buffer i s =
    let b = s.buf i in
    if s.disk.can_read b.num
    then put_buffer i (record b { bytes = s.disk.blocks b.num; uptodate = true }) s
    else put_buffer i (record b { bytes = s.disk.torn b.num b.bytes }) s

-- ll_rw_block(WRITE, bh)
unfoldable pub write_buffer : ℕ → BufferCache → BufferCache
write_buffer i s =
    let b = s.buf i in
    if s.disk.can_write b.num
    then put_disk b.num b.bytes (put_buffer i (record b { dirt = false; uptodate = true }) s)
    else put_disk b.num (s.disk.torn b.num (s.disk.blocks b.num)) s

-- The write of a dirty buffer before it is used again.
abbrev pub write_back : ℕ → BufferCache → BufferCache
write_back i s = if (s.buf i).dirt then write_buffer i s else s

-- A buffer out of its chain and to the head of the chain of its new block.
abbrev pub rechained : ℕ → ℕ → ℕ → BufferCache → ℕ → List ℕ
rechained dev block i s =
    let b = s.buf i in
    let h = chain_index dev block in
    let chain =
      update s.chain (chain_index b.dev b.num) (without i (s.chain (chain_index b.dev b.num))) in
    update chain h (i ∷ chain h)

abbrev pub recycled : ℕ → ℕ → Buffer → Buffer
recycled dev block b = record b {
  count = 1;
  dev = dev;
  num = block;
  uptodate = false;
  dirt = false;
}

unfoldable pub recycle : ℕ → ℕ → ℕ → BufferCache → BufferCache
recycle dev block i s = record s {
  buf = update s.buf i (recycled dev block (s.buf i));
  chain = rechained dev block i s;
}

abbrev pub is_unused : Buffer → Bool
is_unused b = b.count == 0

abbrev pub one_more : Buffer → Buffer
one_more b = record b { count = (b.count + 1) % 256 }

abbrev pub one_fewer : Buffer → Buffer
one_fewer b = record b { count = (b.count + 255) % 256 }

abbrev pub reuse : ℕ → ℕ → Option ℕ → BufferCache → Option ℕ × BufferCache
reuse dev block none s = (none, s)
reuse dev block (some i) s = (some i, recycle dev block i (write_back i s))

abbrev pub hit_or : Option ℕ → BufferCache → Option ℕ × BufferCache → Option ℕ × BufferCache
hit_or none s miss = miss
hit_or (some i) s miss = (some i, put_buffer i (one_more (s.buf i)) s)

-- One round of getblk(): the buffer, or `none` where it calls schedule() and starts again.
unfoldable pub getblk : ℕ → ℕ → BufferCache → Option ℕ × BufferCache
getblk dev block s =
    hit_or (first_in (is_block dev block) s.buf (s.chain (chain_index dev block))) s
      (reuse dev block (first_in is_unused s.buf s.free) s)

-- The ring after the last reference to buffer `i` has gone: it is put behind the first one, and
-- free_list is set to it.
unfoldable pub moved_first : ℕ → List ℕ → List ℕ
moved_first i [] = []
moved_first i (f ∷ fs) = if i == f then f ∷ fs else i ∷ (without i fs ++ (f ∷ []))

unfoldable pub brelse : ℕ → BufferCache → BufferCache
brelse i s =
    let b = one_fewer (s.buf i) in
    let s' = put_buffer i b s in
    if b.count == 0 then record s' { free = moved_first i s.free } else s'

-- What bread() gives: it waits for a buffer, has NULL, or a buffer.
pub data Bread : Type 0 where
  waits : Bread
  failed : Bread
  ready : ℕ → Bread

abbrev pub read_done : ℕ → BufferCache → Bread × BufferCache
read_done i s = if (s.buf i).uptodate then (ready i, s) else (failed, brelse i s)

abbrev pub read_into : Option ℕ × BufferCache → Bread × BufferCache
read_into (none, s) = (waits, s)
read_into (some i, s) = if (s.buf i).uptodate then (ready i, s) else read_done i (read_buffer i s)

-- bread()
unfoldable pub bread : ℕ → ℕ → BufferCache → Bread × BufferCache
bread dev block s = read_into (getblk dev block s)

-- The loop of sync_dev() over the ring: how many buffers it wrote.
unfoldable pub sync_ring : List ℕ → ℕ → BufferCache → ℕ × BufferCache
sync_ring [] dev s = (0, s)
sync_ring (i ∷ is) dev s =
    let b = s.buf i in
    let due = (b.dev == dev) && b.dirt in
    let s' = if due then write_buffer i s else s in
    let (n, s'') = sync_ring is dev s' in (if due then suc n else n, s'')

abbrev pub dirtied : Block → Buffer → Buffer
dirtied f b = record b { bytes = f; dirt = true }

-- What write_inode() does to the block of a changed inode: where it lies, and how its bytes change.
pub record InodeWrite : Type 0 where
  pub block : ℕ
  pub edit : Block → Block

-- write_inode() from its bread() on. Where that waits, no other task can give a buffer back here.
abbrev pub put_inode : InodeWrite → Bread × BufferCache → BufferCache
put_inode x (waits, s) = s
put_inode x (failed, s) = s
put_inode x (ready i, s) =
    brelse i (write_buffer i (put_buffer i (dirtied (x.edit (s.buf i).bytes) (s.buf i)) s))

-- sync_inodes(), for the changed inodes of the device, in the order of inode_table[].
unfoldable pub sync_inodes : ℕ → List InodeWrite → BufferCache → BufferCache
sync_inodes dev [] s = s
sync_inodes dev (x ∷ xs) s = sync_inodes dev xs (put_inode x (bread dev x.block s))

-- sync_dev(), with the changes of the inodes that are dirty.
unfoldable pub sync_dev : ℕ → List InodeWrite → BufferCache → ℕ × BufferCache
unfolding sync_inodes
sync_dev dev inodes s = let (n, s') = sync_ring s.free dev s in (n, sync_inodes dev inodes s')

-- `n` buffers from buffer `i`
unfoldable pub ring_from : ℕ → ℕ → List ℕ
ring_from zero i = []
ring_from (suc n) i = i ∷ ring_from n (suc i)

-- The heads that buffer_init() makes, over memory that holds any bytes.
unfoldable pub buffer_init : (ℕ → Block) → Disk → BufferCache
buffer_init memory disk = record {
  buf = (λ i. record {
    bytes = memory i;
    dev = 0;
    num = 0;
    uptodate = false;
    dirt = false;
    count = 0;
  });
  chain = (λ h. []);
  free = ring_from nr_buffers 0;
  disk = disk;
}
