-- ===== src/Fs/Buffers/Store.antt =====
-- Calls on the cache, and the same calls on an array of blocks.
use linux.Base.{ℕ, ◌≡◌, true, Option, none, some, List, [], ◌∷◌, update}
use linux.Fs.Bitmap.Truncate.{In}
use linux.Fs.Files.{Block}
use linux.Fs.Buffers.Defs.{
  BufferCache, put_buffer, brelse, Bread, waits, failed, ready, bread, dirtied, InodeWrite,
  sync_dev,
}

-- The bytes of a block are read, or all of them written, or the device is synchronised,
-- with the changes of the inodes that are dirty.
pub data Call : Type 0 where
  load_block : ℕ → Call
  store_block : ℕ → Block → Call
  sync_blocks : List InodeWrite → Call

-- As the file system does it: bread(), the bytes, b_dirt, brelse().
abbrev pub loaded : Bread × BufferCache → Option Block × BufferCache
loaded (waits, s) = (none, s)
loaded (failed, s) = (none, s)
loaded (ready i, s) = (some (s.buf i).bytes, brelse i s)

abbrev pub stored : Block → Bread × BufferCache → Option Block × BufferCache
stored f (waits, s) = (none, s)
stored f (failed, s) = (none, s)
stored f (ready i, s) = (some f, brelse i (put_buffer i (dirtied f (s.buf i)) s))

unfoldable pub perform : ℕ → Call → BufferCache → Option Block × BufferCache
perform dev (load_block n) s = loaded (bread dev n s)
perform dev (store_block n f) s = stored f (bread dev n s)
perform dev (sync_blocks xs) s = (none, (sync_dev dev xs s).1)

unfoldable pub answers : ℕ → List Call → BufferCache → List (Option Block)
answers dev [] s = []
answers dev (c ∷ cs) s = let (a, s') = perform dev c s in a ∷ answers dev cs s'

-- The same calls on an array of blocks.
abbrev pub expected : (ℕ → Block) → Call → Option Block
expected blocks (load_block n) = some (blocks n)
expected blocks (store_block n f) = some f
expected blocks (sync_blocks xs) = none

-- The blocks after the changes of the inodes, one after another.
unfoldable pub with_inodes : List InodeWrite → (ℕ → Block) → ℕ → Block
with_inodes [] blocks = blocks
with_inodes (x ∷ xs) blocks = with_inodes xs (update blocks x.block (x.edit (blocks x.block)))

abbrev pub next : (ℕ → Block) → Call → ℕ → Block
next blocks (load_block n) = blocks
next blocks (store_block n f) = update blocks n f
next blocks (sync_blocks xs) = with_inodes xs blocks

unfoldable pub array_answers : List Call → (ℕ → Block) → List (Option Block)
array_answers [] blocks = []
array_answers (c ∷ cs) blocks = expected blocks c ∷ array_answers cs (next blocks c)

-- Every block can be read and written, and a buffer is unused.
pub record Works (s : BufferCache) : Type 0 where
  pub reads : (n : ℕ) → s.disk.can_read n ≡ true
  pub writes : (n : ℕ) → s.disk.can_write n ≡ true
  pub spare : ℕ
  pub in_ring : In spare s.free
  pub idle : (s.buf spare).count ≡ 0
