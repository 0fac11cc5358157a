-- ===== src/Fs/Inodes/Defs.antt =====
-- The 64 slots of inode_table[] as a function of the slot. A call runs here without another task in
-- between, so i_lock and i_wait are left out.
use linux.Base.{
  ℕ, zero, suc, ◌+◌, ◌%◌, Bool, true, false, not, ◌&&◌, ◌||◌, Option, none, some, List, [], ◌∷◌,
  ◌==◌, if◌then◌else◌, update,
}
use linux.Fs.Bitmap.{Super, Maps, free_inode, claim_inode}
use linux.Fs.Bitmap.Truncate.{release_zones}

abbrev pub nr_inode : ℕ
nr_inode = 64

-- What struct d_inode holds.
pub record Body : Type 0 where
  pub mode : ℕ
  pub uid : ℕ
  pub size : ℕ
  pub mtime : ℕ
  pub gid : ℕ
  pub nlinks : ℕ
  pub zones : List ℕ

pub record Slot : Type 0 where
  pub body : Body
  pub dev : ℕ
  pub num : ℕ
  pub count : ℕ
  pub dirt : Bool
  pub pipe : Bool

abbrev pub Bodies : Type 0
Bodies = ℕ → ℕ → Body

-- The table, the inodes on the disks, and whether the superblock and the block of an inode can be
-- had.
pub record Inodes : Type 0 where
  pub table : ℕ → Slot
  pub disk : Bodies
  pub readable : ℕ → ℕ → Bool

-- The first slot of `n` from slot `i` that passes a test.
unfoldable pub first_slot : ℕ → ℕ → (Slot → Bool) → (ℕ → Slot) → Option ℕ
first_slot zero i test table = none
first_slot (suc n) i test table =
    let rest = first_slot n (suc i) test table in if test (table i) then some i else rest

-- inode->i_dev == dev && inode->i_num == nr
abbrev pub is_inode : ℕ → ℕ → Slot → Bool
is_inode dev nr s = (s.dev == dev) && (s.num == nr)

-- !inode->i_count
abbrev pub is_unused : Slot → Bool
is_unused s = s.count == 0

abbrev pub put_body : ℕ → ℕ → Body → Bodies → Bodies
put_body dev nr b disk d n = if (d == dev) && (n == nr) then b else disk d n

-- write_inode() of slot `i`
unfoldable pub write_inode : ℕ → Inodes → Inodes
write_inode i s =
    let o = s.table i in
    if (o.dev == 0) || not o.dirt || not (s.readable o.dev o.num) then s else record s {
      table = update s.table i (record o { dirt = false });
      disk = put_body o.dev o.num o.body s.disk;
    }

-- What a slot becomes when inode (dev, nr) is loaded into it, or cannot be.
abbrev pub claimed : ℕ → ℕ → Slot → Slot
claimed dev nr o = record o { count = 1; dev = dev; num = nr; dirt = false; pipe = false }

abbrev pub dropped : ℕ → ℕ → Slot → Slot
dropped dev nr o = record (claimed dev nr o) { dev = 0; count = 0 }

-- read_inode() into slot `i`, as iget() calls it.
unfoldable pub load : ℕ → ℕ → ℕ → Inodes → Option ℕ × Inodes
load dev nr i s =
    let o = s.table i in
    if (dev == 0) || s.readable dev nr
    then (
      some i,
      record s {
        table =
            update s.table i
              (record (claimed dev nr o) { body = (if dev == 0 then o.body else s.disk dev nr) });
      },
    )
    else (none, record s { table = update s.table i (dropped dev nr o) })

abbrev pub one_more : Slot → Slot
one_more o = record o { count = (o.count + 1) % 256 }

abbrev pub claim : ℕ → ℕ → Option ℕ → Inodes → Option ℕ × Inodes
claim dev nr none s = (none, s)
claim dev nr (some i) s = load dev nr i (write_inode i s)

abbrev pub hit_or : Option ℕ → Inodes → Option ℕ × Inodes → Option ℕ × Inodes
hit_or none s miss = miss
hit_or (some i) s miss = (some i, record s { table = update s.table i (one_more (s.table i)) })

-- iget(): the slot, or `none` for NULL; i_count is one byte.
unfoldable pub iget : ℕ → ℕ → Inodes → Option ℕ × Inodes
iget dev nr s =
    hit_or (first_slot nr_inode 0 (is_inode dev nr) s.table) s
      (claim dev nr (first_slot nr_inode 0 is_unused s.table) s)

-- get_empty_inode(): the slot is not written back.
abbrev pub blank : Slot → Slot
blank o = record o {
  count = 1;
  dev = 0;
  num = 0;
  dirt = false;
  pipe = false;
  body = record (o.body) { nlinks = 0; size = 0 };
}

abbrev pub take_slot : Option ℕ → Inodes → Option ℕ × Inodes
take_slot none s = (none, s)
take_slot (some i) s = (some i, record s { table = update s.table i (blank (s.table i)) })

unfoldable pub get_empty_inode : Inodes → Option ℕ × Inodes
get_empty_inode s = take_slot (first_slot nr_inode 0 is_unused s.table) s

-- The first `n` rounds of sync_inodes().
unfoldable pub sync_slots : ℕ → ℕ → Inodes → Inodes
sync_slots zero dev s = s
sync_slots (suc n) dev s =
    let s' = sync_slots n dev s in
    let o = s'.table n in if (o.dev == dev) && o.dirt then write_inode n s' else s'

unfoldable pub sync_inodes : ℕ → Inodes → Inodes
sync_inodes dev s = sync_slots nr_inode dev s

-- The inode table with the maps of the one device, and the pages given back by iput().
pub record Store : Type 0 where
  pub inodes : Inodes
  pub maps : Maps
  pub freed : List ℕ

-- --inode->i_count, in one byte
abbrev pub one_fewer : Slot → Slot
one_fewer o = record o { count = (o.count + 255) % 256 }

abbrev pub closed_pipe : Slot → Slot
closed_pipe o = record o { pipe = false; body = record (o.body) { size = 0 } }

abbrev pub set_slot : ℕ → Slot → Inodes → Inodes
set_slot i w s = record s { table = update s.table i w }

-- iput() of slot `i`: a pipe's page is at i_size.
unfoldable pub iput : Option Super → ℕ → Store → Store
unfolding free_inode
iput sb i st =
    let o = st.inodes.table i in
    let o' = one_fewer o in
    if o.pipe
    then (if o'.count == 0
        then record st {
          inodes = set_slot i (closed_pipe o') st.inodes;
          freed = o.body.size ∷ st.freed;
        }
        else record st { inodes = set_slot i o' st.inodes })
    else if not (o'.count == 0) || not (o.body.nlinks == 0)
    then record st { inodes = set_slot i o' st.inodes }
    else record st { inodes = set_slot i o' st.inodes; maps = free_inode sb o.dev o.num st.maps }

abbrev pub empty_body : Body
empty_body = record {
  mode = 0;
  uid = 0;
  size = 0;
  mtime = 0;
  gid = 0;
  nlinks = 1;
  zones = 0 ∷ 0 ∷ 0 ∷ 0 ∷ 0 ∷ 0 ∷ 0 ∷ 0 ∷ 0 ∷ [];
}

abbrev pub made_inode : Option ℕ × Inodes → Maps → Store → Option ℕ × Store
made_inode (none, s) m st = (none, record st { inodes = s; maps = m })
made_inode (some i, s) m st = (
  some i,
  record st {
    inodes = set_slot i (record (s.table i) { body = empty_body; dirt = true }) s;
    maps = m;
  },
)

abbrev pub made_at : ℕ → Option ℕ × Maps → Store → Option ℕ × Store
made_at dev (none, m) st = (none, record st { maps = m })
made_at dev (some num, m) st = made_inode (iget dev num st.inodes) m st

-- new_inode(): the slot, or `none` for NULL.
unfoldable pub new_inode : Option Super → ℕ → Store → Option ℕ × Store
unfolding claim_inode iget
new_inode sb dev st = made_at dev (claim_inode sb st.maps) st

-- truncate_inode(), with the zones that the indirect block lists, `none` where it cannot be read.
unfoldable pub truncate_inode : Option Super → Option (List ℕ) → Body → Maps → Body × Maps
unfolding release_zones
truncate_inode sb indirect b m =
    let (zones, m') = release_zones sb b.zones indirect m in
    (record b { zones = zones; size = 0 }, m')
