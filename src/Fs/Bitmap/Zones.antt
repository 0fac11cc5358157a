-- ===== src/Fs/Bitmap/Zones.antt =====
-- Zones are handed out once.
use linux.Base.{
  ℕ, ◌+◌, ◌-◌, ◌*◌, ◌/◌, ◌≡◌, ◌≢◌, ◌⊎◌, ◌≤◌, ◌<◌, refl, sym, ap, subst, ◌∙◌, inl, inr, true, false,
  ◌||◌, none, some, List, [], ◌∷◌, ltb, leb, update, update_self, update_ne, Bool-cases,
  Option-cases, arith,
}
use native.Mathlib.Decide.{ℕ_discrete}
use linux.Fs.Bitmap.Defs.{Super, Maps, Bits, block_bits, scan_map, zmap_base, new_block, free_block}
use linux.Fs.Bitmap.Scan.{IsFree, FreeOrFull, scan_map-FreeOrFull}

module _ (sb : Super) where
  abbrev pub map_size : ℕ
  map_size = sb.zmap_blocks * block_bits

  -- new_block() either fails, and changes nothing, when every bit in the readable blocks of the map
  -- is set, or returns the zone of the first clear bit there, and sets this bit and no other.
  pub new_block_lem :
      (m : Maps)
      → ((new_block (some sb) m ≡ (0, m)) × FreeOrFull m (zmap_base sb) m.zmap 0 map_size none)
        ⊎ ((k : ℕ) × IsFree m (zmap_base sb) m.zmap 0 map_size k
            × (new_block (some sb) m
                ≡ (sb.firstdatazone + k, record m { zmap = update m.zmap k true })))
  unfolding new_block
  new_block_lem m = elim (Option-cases (scan_map sb.zmap_blocks 0 (zmap_base sb) m m.zmap)) [
    | inl e ↦
        inl (
          (rw e refl),
          subst (λ o. FreeOrFull m (zmap_base sb) m.zmap 0 map_size o) e (scan_says m),
        )
    | inr (k, e) ↦ inr (
      k,
      subst (λ o. FreeOrFull m (zmap_base sb) m.zmap 0 map_size o) e (scan_says m),
      (rw e refl),
    )
  ]
    where
      scan_says :
          (m : Maps)
          → FreeOrFull m
              (zmap_base sb)
              m.zmap
              0
              map_size
              (scan_map sb.zmap_blocks 0 (zmap_base sb) m m.zmap)
      scan_says m =
          subst
            (λ n.
              FreeOrFull m (zmap_base sb) m.zmap 0 (n * block_bits)
                (scan_map sb.zmap_blocks 0 (zmap_base sb) m m.zmap))
            (omega arith) (scan_map-FreeOrFull (zmap_base sb) m m.zmap sb.zmap_blocks 0)

  -- free_block() of the zone that new_block() has just returned gives back the map as it was, if the
  -- zone is below s_nzones.
  pub free_block-new_block :
      (m : Maps) (l : ℕ)
      → (new_block (some sb) m).0 ≢ 0
      → (new_block (some sb) m).0 < sb.nzones
      → (free_block (some sb) (new_block (some sb) m).0 (new_block (some sb) m).1).zmap l ≡ m.zmap l
  unfolding free_block
  free_block-new_block m l given below = elim (new_block_lem m) [
    | inl (failed, full) ↦ absurd (given (ap (λ r. r.0) failed))
    | inr (k, free, e) ↦
        let bound : sb.firstdatazone + k < sb.nzones =
          subst (λ (r : ℕ × Maps). r.0 < sb.nzones) e below in
        rw e (restored m l k free bound)
  ]
    where
      restored :
          (m : Maps) (l k : ℕ)
          → IsFree m (zmap_base sb) m.zmap 0 map_size k
          → sb.firstdatazone + k < sb.nzones
          → (free_block
                (some sb)
                (sb.firstdatazone + k)
                (record m { zmap = update m.zmap k true })).zmap
              l
            ≡ m.zmap l
      restored m l k free bound =
          let z = sb.firstdatazone + k in
          let inside : ltb z sb.firstdatazone || leb sb.nzones z ≡ false = ground arith in
          let at : z - sb.firstdatazone ≡ k = omega arith in
          rw (inside, at, free.readable)
            (elim (ℕ_discrete k l) [
              | yes e ↦
                  subst (λ i. update (update m.zmap k true) k false i ≡ m.zmap i) e
                    (update_self (update m.zmap k true) k false ∙ sym free.is_clear)
              | no d ↦ update_ne (update m.zmap k true) k l false d ∙ update_ne m.zmap k l true d
            ])

  -- The bit of a zone.
  abbrev pub InUse : Maps → ℕ → Type 0
  InUse m z = (sb.firstdatazone ≤ z) × (m.zmap (z - sb.firstdatazone) ≡ true)

  -- A zone in use is not handed out, and stays in use.
  taken_lem :
      (m : Maps) (z : ℕ)
      → 1 ≤ sb.firstdatazone
      → InUse m z
      → ((new_block (some sb) m).0 ≢ z) × InUse (new_block (some sb) m).1 z
  taken_lem m z one (low, used) = elim (new_block_lem m) [
    | inl (failed, full) ↦ rw failed ((λ e. absurd (omega (arith, e))), (low, used))
    | inr (k, free, e) ↦
        let other : k ≢ z - sb.firstdatazone =
          (λ x. differ m.zmap k (z - sb.firstdatazone) free.is_clear used x) in
        rw e (
          (λ x. other (omega (arith, x))),
          (low, update_ne m.zmap k (z - sb.firstdatazone) true other ∙ used),
        )
  ]
    where
      differ : (bits : Bits) (k l : ℕ) → bits k ≡ false → bits l ≡ true → k ≢ l
      differ bits k l a b x = let g : bits l ≡ false = subst (λ i. bits i ≡ false) x a in cc

  given_lem :
      (m : Maps) (block z : ℕ) → block ≢ z → InUse m z → InUse (free_block (some sb) block m) z
  unfolding free_block
  given_lem m block z other (low, used) =
      elim (Bool-cases (ltb block sb.firstdatazone || leb sb.nzones block)) [
        | inl e ↦ rw e (low, used)
        | inr e ↦
            elim (Bool-cases
              (m.readable (zmap_base sb + (block - sb.firstdatazone) / block_bits))) [
                | inl r ↦
                    let d : (block - sb.firstdatazone) ≢ (z - sb.firstdatazone) =
                      ground (arith, other) in
                    rw (e, r)
                      (
                        low,
                        update_ne m.zmap (block - sb.firstdatazone) (z - sb.firstdatazone) false d
                            ∙ used,
                      )
                | inr r ↦ rw (e, r) (low, used)
              ]
      ]

-- A call of the allocator.
pub data Call : Type 0 where
  take_zone : Call
  give_zone : ℕ → Call

-- What the calls of new_block() return.
unfoldable pub zones : Super → List Call → Maps → List ℕ
zones sb [] m = []
zones sb (take_zone ∷ cs) m = let (z, m') = new_block (some sb) m in z ∷ zones sb cs m'
zones sb (give_zone z ∷ cs) m = zones sb cs (free_block (some sb) z m)

-- No call gives the zone back.
abbrev pub Keeps : ℕ → List Call → Type 0
Keeps z [] = Unit {0}
Keeps z (take_zone ∷ cs) = Keeps z cs
Keeps z (give_zone z' ∷ cs) = (z' ≢ z) × Keeps z cs

abbrev pub Lacks : ℕ → List ℕ → Type 0
Lacks z [] = Unit {0}
Lacks z (x ∷ xs) = (x ≢ z) × Lacks z xs

-- A zone in use is not handed out again by any sequence of allocations and releases that does not
-- release it, whatever blocks can be read, if the first data zone is not 0.
pub zones-Lacks :
    (sb : Super) (cs : List Call) (m : Maps) (z : ℕ)
    → 1 ≤ sb.firstdatazone
    → InUse sb m z
    → Keeps z cs
    → Lacks z (zones sb cs m)
unfolding zones
zones-Lacks sb [] m z one used keeps = tt
zones-Lacks sb (take_zone ∷ cs) m z one used keeps =
    let (other, used') = taken_lem sb m z one used in
    (other, zones-Lacks sb cs (new_block (some sb) m).1 z one used' keeps)
zones-Lacks sb (give_zone z' ∷ cs) m z one used (other, keeps) =
    zones-Lacks sb cs (free_block (some sb) z' m) z one (given_lem sb m z' z other used) keeps
