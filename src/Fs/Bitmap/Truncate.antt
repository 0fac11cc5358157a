-- ===== src/Fs/Bitmap/Truncate.antt =====
-- truncate_inode() of fs/inode.c and free_dir_zones() of fs/namei.c: all zones of an inode are given
-- back.
use linux.Base.{
  ℕ, ◌+◌, ◌-◌, ◌/◌, ◌≡◌, ◌≢◌, ◌⊎◌, ◌≤◌, ◌<◌, refl, sym, ap, subst, ◌∙◌, inl, inr, Bool, true, false,
  ◌||◌, Option, none, some, List, [], ◌∷◌, ◌++◌, ltb, leb, ◌==◌, if◌then◌else◌, get_or, take, drop,
  replicate, update, update_self, update_ne, Bool-cases, ==_iff, arith,
}
use native.Mathlib.Decide.{ℕ_discrete}
use linux.Fs.Bitmap.Defs.{Super, Maps, block_bits, zmap_base, free_block}

-- The loop over zone numbers, of which 0 stands for no zone.
unfoldable pub free_listed : Option Super → List ℕ → Maps → Maps
unfolding free_block
free_listed sb [] m = m
free_listed sb (z ∷ zs) m = free_listed sb zs (if z == 0 then m else free_block sb z m)

abbrev pub listed : Option (List ℕ) → List ℕ
listed none = []
listed (some zs) = zs

-- The loops over i_zone[0] to i_zone[6] and, if there is an i_zone[7], over its block, which is
-- `none` where it cannot be read; then the block itself.
unfoldable pub release_zones : Option Super → List ℕ → Option (List ℕ) → Maps → List ℕ × Maps
unfolding free_listed free_block
release_zones sb zones indirect m =
    let z7 = get_or zones 7 0 in
    let direct = free_listed sb (take 7 zones) m in
    if z7 == 0
    then (replicate 7 0 ++ drop 7 zones, direct)
    else (replicate 8 0 ++ drop 8 zones, free_block sb z7 (free_listed sb (listed indirect) direct))

-- `z` is in the list.
abbrev pub In : ℕ → List ℕ → Type 0
In z [] = ⊥
In z (x ∷ xs) = (x ≡ z) ⊎ In z xs

-- A zone of the device whose bit can be read.
abbrev pub OnDevice : Super → Maps → ℕ → Type 0
OnDevice sb m z =
    (sb.firstdatazone ≤ z)
    × (z < sb.nzones)
    × (m.readable (zmap_base sb + (z - sb.firstdatazone) / block_bits) ≡ true)

abbrev pub IsFree : Super → Maps → ℕ → Type 0
IsFree sb m z = m.zmap (z - sb.firstdatazone) ≡ false

module _ (sb : Super) where
  abbrev outside : ℕ → Bool
  outside z = ltb z sb.firstdatazone || leb sb.nzones z

  abbrev bit_readable : Maps → ℕ → Bool
  bit_readable m z = m.readable (zmap_base sb + (z - sb.firstdatazone) / block_bits)

  abbrev freed_bits : Maps → ℕ → Maps
  freed_bits m z = record m { zmap = update m.zmap (z - sb.firstdatazone) false }

  free_block-cases :
      (z : ℕ) (m : Maps)
      → ((free_block (some sb) z m ≡ m) × (OnDevice sb m z → ⊥))
        ⊎ ((free_block (some sb) z m ≡ freed_bits m z) × (sb.firstdatazone ≤ z))
  unfolding free_block
  free_block-cases z m = elim (Bool-cases (outside z)) [
    | inl e ↦ inl ((rw e refl), (λ d. off z e d.0 d.1))
    | inr e ↦ elim (Bool-cases (bit_readable m z)) [
      | inl r ↦ inr ((rw (e, r) refl), ground arith)
      | inr r ↦ inl ((rw (e, r) refl), (λ d. clash d.2 r))
    ]
  ]
    where
      off :
          (z : ℕ)
          → ltb z sb.firstdatazone || leb sb.nzones z ≡ true
          → sb.firstdatazone ≤ z
          → z < sb.nzones
          → ⊥
      off z e a b = ground arith

      clash : {b : Bool} → b ≡ true → b ≡ false → ⊥
      clash a b = let bad : true ≡ false = sym a ∙ b in cc

  free_block_own : (z : ℕ) (m : Maps) → OnDevice sb m z → IsFree sb (free_block (some sb) z m) z
  free_block_own z m d = elim (free_block-cases z m) [
    | inl (e, no_device) ↦ absurd (no_device d)
    | inr (e, low) ↦ rw e (update_self m.zmap (z - sb.firstdatazone) false)
  ]

  free_block_stays : (z y : ℕ) (m : Maps) → IsFree sb m y → IsFree sb (free_block (some sb) z m) y
  free_block_stays z y m h = elim (free_block-cases z m) [
    | inl (e, no_device) ↦ rw e h
    | inr (e, low) ↦ elim (ℕ_discrete (z - sb.firstdatazone) (y - sb.firstdatazone)) [
      | yes same ↦ rw e (
          subst (λ k. update m.zmap (z - sb.firstdatazone) false k ≡ false) same
            (update_self m.zmap (z - sb.firstdatazone) false))
      | no other ↦
          rw e (update_ne m.zmap (z - sb.firstdatazone) (y - sb.firstdatazone) false other ∙ h)
    ]
  ]

  free_block_readable : (z : ℕ) (m : Maps) → (free_block (some sb) z m).readable ≡ m.readable
  free_block_readable z m = elim (free_block-cases z m) [
    | inl (e, no_device) ↦ ap (λ (x : Maps). x.readable) e
    | inr (e, low) ↦ ap (λ (x : Maps). x.readable) e
  ]

  free_listed_stays :
      (zs : List ℕ) (y : ℕ) (m : Maps) → IsFree sb m y → IsFree sb (free_listed (some sb) zs m) y
  unfolding free_listed
  free_listed_stays [] y m h = h
  free_listed_stays (z ∷ zs) y m h = elim (Bool-cases (z == 0)) [
    | inl e ↦ rw (free_listed, e) (free_listed_stays zs y m h)
    | inr e ↦
        rw (free_listed, e)
          (free_listed_stays zs y (free_block (some sb) z m) (free_block_stays z y m h))
  ]

  free_listed_readable :
      (zs : List ℕ) (m : Maps) → (free_listed (some sb) zs m).readable ≡ m.readable
  unfolding free_listed
  free_listed_readable [] m = refl
  free_listed_readable (z ∷ zs) m = elim (Bool-cases (z == 0)) [
    | inl e ↦ rw (free_listed, e) (free_listed_readable zs m)
    | inr e ↦
        rw (free_listed, e)
          (free_listed_readable zs (free_block (some sb) z m) ∙ free_block_readable z m)
  ]

  on_device : (m m' : Maps) (z : ℕ) → m'.readable ≡ m.readable → OnDevice sb m z → OnDevice sb m' z
  on_device m m' z e (a, b, c) =
      (a, b, ap (λ r. r (zmap_base sb + (z - sb.firstdatazone) / block_bits)) e ∙ c)

  -- Every listed zone of the device is free after the loop.
  free_listed_own :
      (zs : List ℕ) (y : ℕ) (m : Maps)
      → In y zs
      → y ≢ 0
      → OnDevice sb m y
      → IsFree sb (free_listed (some sb) zs m) y
  unfolding free_listed
  free_listed_own [] y m there nz d = absurd there
  free_listed_own (z ∷ zs) y m (inl same) nz d =
      let e : z == 0 ≡ false = ground (arith, nz) in
      let own : IsFree sb (free_block (some sb) z m) y =
        subst (λ k. IsFree sb (free_block (some sb) k m) y) (sym same) (free_block_own y m d) in
      rw (free_listed, e) (free_listed_stays zs y (free_block (some sb) z m) own)
  free_listed_own (z ∷ zs) y m (inr there) nz d = elim (Bool-cases (z == 0)) [
    | inl e ↦ rw (free_listed, e) (free_listed_own zs y m there nz d)
    | inr e ↦
        rw (free_listed, e)
          (free_listed_own zs y (free_block (some sb) z m) there nz
            (on_device m (free_block (some sb) z m) y (free_block_readable z m) d))
  ]

  -- Giving back the zones of an inode leaves every zone of the device that it had free: the direct
  -- ones, the indirect one, and, where there is an indirect one whose block was read, those that it
  -- lists. The bits of these zones can be read.
  pub release_zones_lem :
      (zones : List ℕ) (indirect : Option (List ℕ)) (m : Maps) (y : ℕ)
      → y ≢ 0
      → OnDevice sb m y
      → In y (take 7 zones)
        ⊎ ((get_or zones 7 0 ≡ y) ⊎ ((get_or zones 7 0 ≢ 0) × In y (listed indirect)))
      → IsFree sb (release_zones (some sb) zones indirect m).1 y
  unfolding release_zones
  release_zones_lem zones indirect m y nz d had =
      let z7 = get_or zones 7 0 in
      let direct = free_listed (some sb) (take 7 zones) m in
      let deep = free_listed (some sb) (listed indirect) direct in
      let d1 : OnDevice sb direct y =
        on_device m direct y (free_listed_readable (take 7 zones) m) d in
      let d2 : OnDevice sb deep y =
        on_device direct deep y (free_listed_readable (listed indirect) direct) d1 in
      elim (Bool-cases (z7 == 0)) [
        | inl e ↦ rw e (go_short (free_listed_own (take 7 zones) y m) had ((==_iff z7 0).0 e))
        | inr e ↦ rw e (elim had [
          | inl own ↦ free_block_stays z7 y deep (
              free_listed_stays (listed indirect) y direct
                (free_listed_own (take 7 zones) y m own nz d))
          | inr (inl same) ↦
              subst (λ k. IsFree sb (free_block (some sb) k deep) y) (sym same)
                (free_block_own y deep d2)
          | inr (inr (some_block, there)) ↦
              free_block_stays z7 y deep (free_listed_own (listed indirect) y direct there nz d1)
        ])
      ]
    where
      go_short :
          (In y (take 7 zones)
            → y ≢ 0
            → OnDevice sb m y
            → IsFree sb (free_listed (some sb) (take 7 zones) m) y)
          → In y (take 7 zones)
            ⊎ ((get_or zones 7 0 ≡ y) ⊎ ((get_or zones 7 0 ≢ 0) × In y (listed indirect)))
          → get_or zones 7 0 ≡ 0
          → IsFree sb (free_listed (some sb) (take 7 zones) m) y
      go_short own (inl direct) e = own direct nz d
      go_short own (inr (inl same)) e = absurd (nz (sym same ∙ e))
      go_short own (inr (inr (some_block, there))) e = absurd (some_block e)
