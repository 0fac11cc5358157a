-- ===== src/Fs/Files/Held.antt =====
-- The blocks of an inode, and what one of them being made leaves alone.
use linux.Base.{
  ℕ, ◌+◌, ◌-◌, ◌/◌, ◌%◌, ◌^◌, ◌≡◌, ◌≢◌, ◌⊎◌, ◌≤◌, ◌<◌, refl, sym, subst, ◌∙◌, inl, inr, Bool, true,
  false, ◌||◌, none, some, ltb, ◌==◌, if◌then◌else◌, update, update_self, update_ne, length, get_or,
  Bool-cases, arith,
}
use native.Mathlib.Decide.{ℕ_discrete}
use linux.Fs.Bitmap.{Super, Maps, new_block}
use linux.Fs.Bitmap.Zones.{InUse, map_size, new_block_lem}
use linux.Fs.Inodes.{Slot}
use linux.Fs.Files.Defs.{Volume, Block, block_size, short_at, set_short, zone_of}
use linux.Fs.Files.Reading.{byte_at, byte_in, byte_of}

-- 7 direct zones, 512 of the indirect block, and the indirect block itself as the last.
abbrev pub nr_zones : ℕ
nr_zones = 519

abbrev pub nr_held : ℕ
nr_held = 520

unfoldable pub held : Volume → Slot → ℕ → ℕ
held v o z =
    let ind = get_or o.body.zones 7 0 in
    if ltb z 7
    then get_or o.body.zones z 0
    else if z == 519
    then ind
    else if ind == 0
    then 0
    else short_at (v.blocks ind) (z - 7)

-- A block of an inode is in use, and is there once.
pub record IsValid (sb : Super) (v : Volume) (o : Slot) : Type 0 where
  pub long : 8 ≤ length o.body.zones
  pub in_use : (z : ℕ) → z < nr_held → held v o z ≢ 0 → InUse sb v.maps (held v o z)
  pub distinct :
      (y z : ℕ) → y < nr_held → z < nr_held → held v o y ≢ 0 → held v o y ≡ held v o z → y ≡ z

-- The first data zone is not 0, and a zone that the map can name fits an unsigned short.
abbrev pub Fits : Super → Type 0
Fits sb = (1 ≤ sb.firstdatazone) × (sb.firstdatazone + map_size sb ≤ 2 ^ 16)

-- What new_block() gives.
pub record Made (sb : Super) (m m' : Maps) (b : ℕ) : Type 0 where
  pub given : b ≢ 0
  pub small : b < 2 ^ 16
  pub not_in_use : ¬ InUse sb m b
  pub now_used : InUse sb m' b
  pub still_used : (x : ℕ) → InUse sb m x → InUse sb m' x
  pub same_reads : m'.readable ≡ m.readable

pub new_block-Made :
    (sb : Super) (m : Maps)
    → Fits sb
    → (new_block (some sb) m ≡ (0, m))
      ⊎ ((b : ℕ) × (m' : Maps) × (new_block (some sb) m ≡ (b, m')) × Made sb m m' b)
new_block-Made sb m (first, fits) = elim (new_block_lem sb m) [
  | inl (e, full) ↦ inl e
  | inr (k, free, e) ↦
      let at : sb.firstdatazone + k - sb.firstdatazone ≡ k = omega arith in
      inr (
        sb.firstdatazone + k,
        record m { zmap = update m.zmap k true },
        e,
        record {
          given = (λ z. omega (arith, z));
          small = (let h = free.high in omega arith);
          not_in_use = (λ u. differ (m.zmap k) free.is_clear (subst (λ i. m.zmap i ≡ true) at u.1));
          now_used = (omega arith, rw at (update_self m.zmap k true));
          still_used = (λ x u. (u.0, kept k (x - sb.firstdatazone) u.1));
          same_reads = refl;
        },
      )
]
  where
    differ : (b : Bool) → b ≡ false → b ≢ true
    differ b e h = let bad : true ≡ false = sym h ∙ e in cc

    kept : (k l : ℕ) → m.zmap l ≡ true → update m.zmap k true l ≡ true
    kept k l h = elim (ℕ_discrete k l) [
      | yes e ↦ subst (λ i. update m.zmap k true i ≡ true) e (update_self m.zmap k true)
      | no d ↦ update_ne m.zmap k l true d ∙ h
    ]

-- The indirect block is not needed, or can be read.
abbrev pub reached : Volume → Slot → ℕ → Bool
reached v o z = ltb z 7 || (held v o 519 == 0) || v.maps.readable (held v o 519)

-- The zone of a position, through `held`.
pub zone_of-held :
    (v : Volume) (o : Slot) (z : ℕ)
    → z < nr_zones
    → zone_of v o z ≡ (if reached v o z then some (held v o z) else none)
unfolding zone_of held
zone_of-held v o z h = elim (Bool-cases (ltb z 7)) [
  | inl low ↦ rw low refl
  | inr high ↦
      let other : z == 519 ≡ false = ground arith in
      elim (Bool-cases (get_or o.body.zones 7 0 == 0)) [
        | inl e ↦ rw (high, other, e) refl
        | inr e ↦ elim (Bool-cases (v.maps.readable (get_or o.body.zones 7 0))) [
          | inl r ↦ rw (high, other, e, r) refl
          | inr r ↦ rw (high, other, e, r) refl
        ]
      ]
]

-- Where a zone above the direct ones is there, so is the indirect block.
pub held_indirect :
    (v : Volume) (o : Slot) (z : ℕ) → z < nr_zones → 7 ≤ z → held v o z ≢ 0 → held v o 519 ≢ 0
unfolding held
held_indirect v o z h high there = elim (ℕ_discrete (get_or o.body.zones 7 0) 0) [
  | yes e ↦
      let a : ltb z 7 ≡ false = ground arith in
      let b : z == 519 ≡ false = ground arith in absurd (there (rw (a, b, e) refl))
  | no d ↦ d
]

-- What a byte depends on.
pub byte_at_same :
    (v v' : Volume) (o o' : Slot) (p : ℕ)
    → p / block_size < nr_zones
    → held v o (p / block_size) ≢ 0
    → ((z : ℕ) → z < nr_held → held v o z ≢ 0 → held v' o' z ≡ held v o z)
    → v'.maps.readable ≡ v.maps.readable
    → v'.blocks (held v o (p / block_size)) (p % block_size)
      ≡ v.blocks (held v o (p / block_size)) (p % block_size)
    → byte_at v' o' p ≡ byte_at v o p
byte_at_same v v' o o' p h there kept reads same =
    let z = p / block_size in
    let zone : held v' o' z ≡ held v o z = kept z (omega arith) there in
    let reach : reached v' o' z ≡ reached v o z = go (Bool-cases (ltb z 7)) in
    byte_of v' o' p (if reached v o z then some (held v o z) else none)
      (rw (zone_of-held v' o' z h, reach, zone) refl)
    ∙ bytes (reached v o z)
    ∙ sym (byte_of v o p (if reached v o z then some (held v o z) else none) (zone_of-held v o z h))
  where
    bytes :
        (b : Bool)
        → byte_in v' (p % block_size) (if b then some (held v o (p / block_size)) else none)
          ≡ byte_in v (p % block_size) (if b then some (held v o (p / block_size)) else none)
    bytes true = rw (reads, same) refl
    bytes false = refl

    go :
        ((ltb (p / block_size) 7 ≡ true) ⊎ (ltb (p / block_size) 7 ≡ false))
        → reached v' o' (p / block_size) ≡ reached v o (p / block_size)
    go (inl low) = rw low refl
    go (inr high) =
        let ind : held v' o' 519 ≡ held v o 519 =
          kept 519 (omega arith) (held_indirect v o (p / block_size) h (ground arith) there) in
        rw (ind, reads) refl

pub short_at-set_short :
    (b : Block) (k l x : ℕ) → short_at (set_short b k x) l ≡ (if k == l then x else short_at b l)
short_at-set_short b k l x = ground arith
