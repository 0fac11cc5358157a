-- ===== src/Fs/Files/Defs.antt =====
-- file_read() and file_write(). A position, a size and a count are below 2^31, and a position is
-- below 519 blocks, where the indirect block ends: the code does not test this.
use linux.Base.{
  ℕ, zero, suc, ◌+◌, ◌-◌, ◌*◌, ◌/◌, ◌%◌, ◌^◌, true, not, ◌||◌, Option, none, some, List, [], ◌∷◌,
  ◌++◌, ltb, leb, ◌==◌, if◌then◌else◌, update, length, get_or, set, take, drop, replicate,
}
use linux.Fs.Bitmap.{Super, Maps, new_block}
use linux.Fs.Inodes.{Slot}

abbrev pub block_size : ℕ
block_size = 1024

abbrev pub Block : Type 0
Block = ℕ → ℕ

-- One device, as the buffers and the disk together hold it: the bytes of its blocks, and its maps.
-- `maps.readable` is whether bread() gives a block.
pub record Volume : Type 0 where
  pub blocks : ℕ → Block
  pub maps : Maps

-- ((unsigned short *)b_data)[k]
abbrev pub short_at : Block → ℕ → ℕ
short_at b k = b (2 * k) + b (2 * k + 1) * 256

abbrev pub set_short : Block → ℕ → ℕ → Block
set_short b k x = update (update b (2 * k) (x % 256)) (2 * k + 1) (x / 256)

-- The block of a zone, 0 for a hole; `none` where the indirect block cannot be read.
unfoldable pub zone_of : Volume → Slot → ℕ → Option ℕ
zone_of v o z =
    let ind = get_or o.body.zones 7 0 in
    if ltb z 7
    then some (get_or o.body.zones z 0)
    else if ind == 0
    then some 0
    else if v.maps.readable ind
    then some (short_at (v.blocks ind) (z - 7))
    else none

-- The smaller of a size and what is left of a count.
abbrev pub capped : ℕ → ℕ → ℕ
capped size count = if ltb count size then count else size

-- How many bytes one round of file_read() takes.
abbrev pub read_size : Slot → ℕ → ℕ → ℕ
read_size o pos count = capped (capped (block_size - pos % block_size) count) (o.body.size - pos)

-- `n` bytes from offset `i`
unfoldable pub bytes_of : Block → ℕ → ℕ → List ℕ
bytes_of b i zero = []
bytes_of b i (suc n) = b i ∷ bytes_of b (suc i) n

-- The bytes that one round hands over, and those of the rounds that follow.
abbrev pub deliver : Volume → ℕ → ℕ → List ℕ → Option ℕ → List ℕ
deliver v offset size rest none = []
deliver v offset size rest (some block) =
    if block == 0
    then replicate size 0 ++ rest
    else if v.maps.readable block
    then bytes_of (v.blocks block) offset size ++ rest
    else []

-- The loop of file_read(), on fuel: the bytes put at buf.
unfoldable pub read_loop : ℕ → Volume → Slot → ℕ → ℕ → List ℕ
read_loop zero v o pos count = []
read_loop (suc n) v o pos count =
    let size = read_size o pos count in
    let rest = read_loop n v o (pos + size) (count - size) in
    if (count == 0) || leb o.body.size pos
    then []
    else deliver v (pos % block_size) size rest (zone_of v o (pos / block_size))

-- file_read(): each round takes at least one byte.
unfoldable pub file_read : Volume → Slot → ℕ → ℕ → List ℕ
file_read v o pos count = read_loop count v o pos count

-- A block for what is not yet there, as an unsigned short, 0 if there is none left.
abbrev pub short_block : ℕ × Maps → ℕ × Maps
short_block (b, m) = (b % 2 ^ 16, m)

abbrev pub with_zone : ℕ → ℕ → Slot → Slot
with_zone z b o = record o {
  body = record (o.body) { zones = set (o.body.zones) z b };
  dirt = true;
}

abbrev pub add_direct : ℕ → ℕ × Maps → Volume → Slot → ℕ × Volume × Slot
add_direct z (b, m) v o =
    if b == 0 then (0, record v { maps = m }, o) else (b, record v { maps = m }, with_zone z b o)

-- The direct zone `z`, made if it is a hole; the block is 0 where the loop is left.
unfoldable pub direct_zone : Option Super → ℕ → Volume → Slot → ℕ × Volume × Slot
direct_zone sb z v o =
    let b = get_or o.body.zones z 0 in
    if b == 0 then add_direct z (short_block (new_block sb v.maps)) v o else (b, v, o)

abbrev pub add_listed : ℕ → ℕ → ℕ × Maps → Volume → ℕ × Volume
add_listed ind k (b, m) v =
    if b == 0
    then (0, record v { maps = m })
    else (b, record { maps = m; blocks = update v.blocks ind (set_short (v.blocks ind) k b) })

-- Entry `k` of the indirect block, made if it is 0.
unfoldable pub listed_zone : Option Super → ℕ → ℕ → Volume → ℕ × Volume
listed_zone sb ind k v =
    let b = short_at (v.blocks ind) k in
    if not (v.maps.readable ind)
    then (0, v)
    else if b == 0
    then add_listed ind k (short_block (new_block sb v.maps)) v
    else (b, v)

abbrev pub through : Option Super → ℕ → ℕ × Volume × Slot → ℕ × Volume × Slot
through sb k (ind, v, o) =
    let (b, v') = listed_zone sb ind k v in if ind == 0 then (0, v, o) else (b, v', o)

-- The block that file_write() writes for zone `z`.
unfoldable pub zone_for_write : Option Super → ℕ → Volume → Slot → ℕ × Volume × Slot
zone_for_write sb z v o =
    if ltb z 7 then direct_zone sb z v o else through sb (z - 7) (direct_zone sb 7 v o)

unfoldable pub write_bytes : Block → ℕ → List ℕ → Block
write_bytes b i [] = b
write_bytes b i (c ∷ cs) = write_bytes (update b i c) (suc i) cs

abbrev pub grown : ℕ → Slot → Slot
grown top o =
    if ltb o.body.size top
    then record o { body = record (o.body) { size = top }; dirt = true }
    else o

-- One round: how many bytes were written.
abbrev pub put_chunk : ℕ → List ℕ → ℕ × Volume × Slot → ℕ × Volume × Slot
put_chunk pos src (block, v, o) =
    let size = capped (block_size - pos % block_size) (length src) in
    if (block == 0) || not (v.maps.readable block) then (0, v, o) else (
      size,
      record v {
        blocks =
            update v.blocks block (write_bytes (v.blocks block) (pos % block_size) (take size src));
      },
      grown (pos + size) o,
    )

unfoldable pub write_round : Option Super → ℕ → List ℕ → Volume → Slot → ℕ × Volume × Slot
write_round sb pos src v o = put_chunk pos src (zone_for_write sb (pos / block_size) v o)

-- The loop of file_write(), on fuel, over the bytes at buf: the result, the volume and the inode.
unfoldable pub write_loop : ℕ → Option Super → ℕ → List ℕ → Volume → Slot → ℕ × Volume × Slot
write_loop zero sb pos src v o = (0, v, o)
write_loop (suc n) sb pos [] v o = (0, v, o)
write_loop (suc n) sb pos (c ∷ cs) v o =
    let (size, v', o') = write_round sb pos (c ∷ cs) v o in
    let (rest, v'', o'') = write_loop n sb (pos + size) (drop size (c ∷ cs)) v' o' in
    if size == 0 then (0, v', o') else (size + rest, v'', o'')

-- file_write(): each round that does not end the loop writes at least one byte.
unfoldable pub file_write : Option Super → ℕ → List ℕ → Volume → Slot → ℕ × Volume × Slot
file_write sb pos src v o = write_loop (length src) sb pos src v o
