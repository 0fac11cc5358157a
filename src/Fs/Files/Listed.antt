-- ===== src/Fs/Files/Listed.antt =====
-- The zones that the indirect block lists.
use linux.Base.{
  ℕ, ◌-◌, ◌%◌, ◌^◌, ◌≡◌, ◌≢◌, ◌⊎◌, ◌≤◌, ◌<◌, refl, ap, ◌∙◌, inl, inr, true, false, some, List, ltb,
  ◌==◌, if◌then◌else◌, update, update_self, update_ne, get_or, Bool-cases, arith,
}
use linux.Fs.Bitmap.{Super, Maps}
use linux.Fs.Inodes.{Slot}
use linux.Fs.Inodes.Content.{true-false}
use linux.Fs.Files.Defs.{Volume, short_at, set_short, direct_zone, listed_zone, zone_for_write}
use linux.Fs.Files.Held.{nr_zones, nr_held, held, IsValid, Fits, new_block-Made, short_at-set_short}
use linux.Fs.Files.Grow.{nothing-Written, grown-Written}
use linux.Fs.Files.Direct.{PlacedBy, direct_zone-Placed}

held_last : (v : Volume) (o : Slot) → held v o 519 ≡ get_or o.body.zones 7 0
unfolding held
held_last v o = refl

held_listed :
    (v : Volume) (o : Slot) (z : ℕ)
    → 7 ≤ z
    → z < nr_zones
    → held v o 519 ≢ 0
    → held v o z ≡ short_at (v.blocks (held v o 519)) (z - 7)
unfolding held
held_listed v o z high low there =
    let a : ltb z 7 ≡ false = ground arith in
    let b : z == 519 ≡ false = ground arith in
    let c : get_or o.body.zones 7 0 == 0 ≡ false = ground (arith, there) in rw (a, b, c) refl

held_with_entry :
    (v : Volume) (m : Maps) (o : Slot) (z b y : ℕ)
    → 7 ≤ z
    → z < nr_zones
    → y < nr_held
    → held v o 519 ≢ 0
    → held
        (record {
          maps = m;
          blocks = update v.blocks (held v o 519) (set_short (v.blocks (held v o 519)) (z - 7) b);
        })
        o
        y
      ≡ (if z == y then b else held v o y)
unfolding held
held_with_entry v m o z b y high low in_range there =
    let ind = get_or o.body.zones 7 0 in
    let block = set_short (v.blocks ind) (z - 7) b in
    elim (Bool-cases (ltb y 7)) [
      | inl direct ↦ let a : z == y ≡ false = ground arith in rw (direct, a) refl
      | inr listed ↦ elim (Bool-cases (y == 519)) [
        | inl last ↦ let a : z == y ≡ false = ground arith in rw (listed, last, a) refl
        | inr inner ↦
            let c : ind == 0 ≡ false = ground (arith, there) in
            rw (listed, inner, c, update_self v.blocks ind block)
              (short_at-set_short (v.blocks ind) (z - 7) (y - 7) b
                ∙ (let q : (z - 7 == y - 7) ≡ (z == y) = ground arith in rw q refl))
      ]
    ]

module _ (sb : Super) (pos : ℕ) (src : List ℕ) (fits : Fits sb) where
  abbrev with_inode : Slot → ℕ × Volume → ℕ × Volume × Slot
  with_inode o (b, v) = (b, v, o)

  listed_zone-Placed :
      (v : Volume) (o : Slot) (z : ℕ)
      → IsValid sb v o
      → 7 ≤ z
      → z < nr_zones
      → held v o 519 ≢ 0
      → PlacedBy sb v o pos src z (with_inode o (listed_zone (some sb) (held v o 519) (z - 7) v))
  unfolding listed_zone
  listed_zone-Placed v o z valid high low there =
      let ind = held v o 519 in
      let b0 = short_at (v.blocks ind) (z - 7) in
      elim (Bool-cases (v.maps.readable ind)) [
        | inr bad ↦ rw bad (record {
          written = nothing-Written sb pos src v o valid;
          at = (λ nz. absurd (nz refl));
          found = (λ nz. absurd (nz refl));
          stop = (λ all_fine e. absurd (true-false (all_fine ind) bad));
        })
        | inl fine ↦ elim (Bool-cases (b0 == 0)) [
          | inr full ↦
              rw (fine, full)
                (record {
                  written = nothing-Written sb pos src v o valid;
                  at = (λ nz. held_listed v o z high low there);
                  found = (λ nz. rw fine (ground arith));
                  stop = (λ all_fine e.
                      let g : b0 == 0 ≡ true = ground (arith, e) in absurd (true-false g full));
                })
          | inl hole ↦ elim (new_block-Made sb v.maps fits) [
            | inl e ↦
                rw (fine, hole, e)
                  (record {
                    written = nothing-Written sb pos src v o valid;
                    at = (λ nz. absurd (nz refl));
                    found = (λ nz. absurd (nz refl));
                    stop = (λ all_fine z. ap (λ (r : ℕ × Maps). r.0) e);
                  })
            | inr (b, m', e, made) ↦
                let small : b % 2 ^ 16 ≡ b = (let h = made.small in omega arith) in
                let given : b == 0 ≡ false = ground (arith, made.given) in
                let v' : Volume = record {
                  maps = m';
                  blocks = update v.blocks ind (set_short (v.blocks ind) (z - 7) b);
                } in
                let self : z == z ≡ true = ground arith in
                rw (fine, hole, e, small, given)
                  (record {
                    written =
                        grown-Written sb pos src v v' o o z b valid low
                          (held_listed v o z high low there ∙ (let g : b0 ≡ 0 = ground arith in g))
                          (λ y h. held_with_entry v m' o z b y high low h there) made
                          (λ x d. update_ne v.blocks ind x (set_short (v.blocks ind) (z - 7) b) d)
                          valid.long refl;
                    at = (λ nz.
                        held_with_entry v m' o z b z high low (omega arith) there ∙ rw self refl);
                    found = (λ nz.
                        let last = held_with_entry v m' o z b 519 high low (omega arith) there in
                        let other : z == 519 ≡ false = ground arith in
                        rw (last, other, made.same_reads, fine) (ground arith));
                    stop = (λ all_fine e. absurd (made.given e));
                  })
          ]
        ]
      ]

  -- The zone that file_write() finds or makes, where the indirect block is there if it is needed.
  pub zone_for_write-Placed :
      (v : Volume) (o : Slot) (z : ℕ)
      → IsValid sb v o
      → z < nr_zones
      → (z < 7) ⊎ (held v o 519 ≢ 0)
      → PlacedBy sb v o pos src z (zone_for_write (some sb) z v o)
  unfolding zone_for_write direct_zone held
  zone_for_write-Placed v o z valid low way = elim (Bool-cases (ltb z 7)) [
    | inl direct ↦ rw direct (direct_zone-Placed sb pos src fits v o z valid (ground arith))
    | inr listed ↦
        let there : held v o 519 ≢ 0 = after way (ground arith) in
        let ind : get_or o.body.zones 7 0 == 0 ≡ false = ground (arith, there, held_last v o) in
        rw (listed, ind, ind) (listed_zone-Placed v o z valid (ground arith) low there)
  ]
    where
      after : ((z < 7) ⊎ (held v o 519 ≢ 0)) → 7 ≤ z → held v o 519 ≢ 0
      after (inl direct) high = absurd (omega arith)
      after (inr there) high = there
