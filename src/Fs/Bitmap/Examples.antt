-- ===== src/Fs/Bitmap/Examples.antt =====
-- A small device: zones 5 and 6 exist, and the map has a block of 8192 bits.
use linux.Base.{inl, inr, ◌≡◌, refl, true, false, some, [], ◌∷◌, ltb, arith}
use linux.Fs.Bitmap.Defs.{
  Super, Maps, first_clear, scan_map, new_block, free_block, free_inode, claim_inode,
}
use linux.Fs.Bitmap.Truncate.{IsFree, free_listed, release_zones, release_zones_lem}
use linux.Fs.Bitmap.Zones.{take_zone, give_zone, zones, Lacks, zones-Lacks}

abbrev super : Super
super = record { imap_blocks = 1; zmap_blocks = 1; firstdatazone = 5; nzones = 7 }

abbrev fresh : Maps
fresh = record { imap = (λ k. ltb k 1); zmap = (λ k. false); readable = (λ b. true) }

abbrev full : Maps
full = record fresh { zmap = (λ k. ltb k 2) }

first_zone : (new_block (some super) fresh).0 ≡ 5
unfolding new_block scan_map first_clear
first_zone = refl

zones-Lacks_example : Lacks 5 (zones super (take_zone ∷ give_zone 6 ∷ take_zone ∷ []) full)
zones-Lacks_example =
    zones-Lacks super (take_zone ∷ give_zone 6 ∷ take_zone ∷ []) full 5 (omega arith)
      (omega arith, refl) ((λ e. omega (arith, e)), tt)

-- The map is full up to s_nzones: a zone behind the device is handed out, and cannot be given back.
behind_device : (new_block (some super) full).0 ≡ 7
unfolding new_block scan_map first_clear
behind_device = refl

kept_behind_device :
    free_block (some super) 7 (new_block (some super) full).1 ≡ (new_block (some super) full).1
unfolding free_block new_block scan_map first_clear
kept_behind_device = refl

-- Inode 2 is the first free one; it is free again after free_inode().
second_inode : (claim_inode (some super) fresh).0 ≡ some 2
unfolding claim_inode scan_map first_clear
second_inode = refl

freed_inode : (free_inode (some super) 769 2 (claim_inode (some super) fresh).1).imap 1 ≡ false
unfolding free_inode claim_inode scan_map first_clear
freed_inode = refl

-- An inode with zone 5 and the indirect block 6, which lists zone 5 too.
release_zones_lem_example :
    IsFree super
      (release_zones (some super) (5 ∷ 0 ∷ 0 ∷ 0 ∷ 0 ∷ 0 ∷ 0 ∷ 6 ∷ 0 ∷ []) (some (5 ∷ [])) full).1
      6
release_zones_lem_example =
    release_zones_lem super (5 ∷ 0 ∷ 0 ∷ 0 ∷ 0 ∷ 0 ∷ 0 ∷ 6 ∷ 0 ∷ []) (some (5 ∷ [])) full 6
      (λ e. omega (arith, e)) (omega arith, omega arith, refl) (inr (inl refl))

emptied_inode :
    ((release_zones (some super) (5 ∷ 0 ∷ 0 ∷ 0 ∷ 0 ∷ 0 ∷ 0 ∷ 6 ∷ 0 ∷ []) (some (5 ∷ [])) full).0
      ≡ 0 ∷ 0 ∷ 0 ∷ 0 ∷ 0 ∷ 0 ∷ 0 ∷ 0 ∷ 0 ∷ [])
    × ((release_zones
            (some super)
            (5 ∷ 0 ∷ 0 ∷ 0 ∷ 0 ∷ 0 ∷ 0 ∷ 6 ∷ 0 ∷ [])
            (some (5 ∷ []))
            full).1.zmap
          0
        ≡ false)
unfolding release_zones free_listed free_block
emptied_inode = (refl, refl)
