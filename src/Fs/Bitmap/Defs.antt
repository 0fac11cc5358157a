-- ===== src/Fs/Bitmap/Defs.antt =====
-- The maps of one device. Bit `k` of a map is bit k % 8192 of its block k / 8192; `readable` is
-- whether bread() gives a disk block.
use linux.Base.{
  ℕ, zero, suc, ◌+◌, ◌-◌, ◌*◌, ◌/◌, ◌%◌, ◌^◌, Bool, true, false, ◌||◌, Option, none, some, ltb, leb,
  ◌==◌, if◌then◌else◌, update,
}

-- What the code reads of struct super_block.
pub record Super : Type 0 where
  pub imap_blocks : ℕ
  pub zmap_blocks : ℕ
  pub firstdatazone : ℕ
  pub nzones : ℕ

abbrev pub Bits : Type 0
Bits = ℕ → Bool

pub record Maps : Type 0 where
  pub imap : Bits
  pub zmap : Bits
  pub readable : ℕ → Bool

-- BLOCK_SIZE * 8
abbrev pub block_bits : ℕ
block_bits = 8192

-- The inner loop: the first clear bit of `n` from bit `k`.
unfoldable pub first_clear : ℕ → ℕ → Bits → Option ℕ
first_clear zero k bits = none
first_clear (suc n) k bits =
    let rest = first_clear n (suc k) bits in if bits k then rest else some k

abbrev pub or_else : Option ℕ → Option ℕ → Option ℕ
or_else none rest = rest
or_else (some k) rest = some k

-- The outer loop: the first clear bit in `n` blocks from block `i` of a map that starts at disk
-- block `base`. A block that cannot be read is passed over.
unfoldable pub scan_map : ℕ → ℕ → ℕ → Maps → Bits → Option ℕ
scan_map zero i base m bits = none
scan_map (suc n) i base m bits =
    let rest = scan_map n (suc i) base m bits in
    if m.readable (base + i)
    then or_else (first_clear block_bits (i * block_bits) bits) rest
    else rest

abbrev pub zmap_base : Super → ℕ
zmap_base sb = 2 + sb.imap_blocks

abbrev pub taken_zone : Super → Option ℕ → Maps → ℕ × Maps
taken_zone sb none m = (0, m)
taken_zone sb (some k) m = (sb.firstdatazone + k, record m { zmap = update m.zmap k true })

-- new_block(): the zone or 0, and the maps.
unfoldable pub new_block : Option Super → Maps → ℕ × Maps
new_block none m = (0, m)
new_block (some sb) m = taken_zone sb (scan_map sb.zmap_blocks 0 (zmap_base sb) m m.zmap) m

unfoldable pub free_block : Option Super → ℕ → Maps → Maps
free_block none block m = m
free_block (some sb) block m =
    let k = block - sb.firstdatazone in
    if ltb block sb.firstdatazone || leb sb.nzones block
    then m
    else if m.readable (zmap_base sb + k / block_bits)
    then record m { zmap = update m.zmap k false }
    else m

-- free_inode(), by i_dev and i_num; the subtraction is in 32 bits.
unfoldable pub free_inode : Option Super → ℕ → ℕ → Maps → Maps
free_inode none dev num m = m
free_inode (some sb) dev num m =
    let k = (num + (2 ^ 32 - 1)) % 2 ^ 32 in
    if dev == 0
    then m
    else if m.readable (2 + k / block_bits)
    then record m { imap = update m.imap k false }
    else m

abbrev pub taken_inode : Option ℕ → Maps → Option ℕ × Maps
taken_inode none m = (none, m)
taken_inode (some k) m = (some (k + 1), record m { imap = update m.imap k true })

-- new_inode() up to its iget(): the inode number, and the maps.
unfoldable pub claim_inode : Option Super → Maps → Option ℕ × Maps
claim_inode none m = (none, m)
claim_inode (some sb) m = taken_inode (scan_map sb.imap_blocks 0 2 m m.imap) m
