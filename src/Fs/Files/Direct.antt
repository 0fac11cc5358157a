-- ===== src/Fs/Files/Direct.antt =====
-- The direct zones.
use linux.Base.{
  ℕ, ◌%◌, ◌^◌, ◌≡◌, ◌≢◌, ◌≤◌, ◌<◌, refl, sym, ap, subst, ◌∙◌, inl, inr, true, false, some, List,
  ltb, ◌==◌, if◌then◌else◌, length, get_or, set, length-set, get_or-set_self, get_or-set_ne,
  Bool-cases, arith,
}
use native.Mathlib.Decide.{ℕ_discrete}
use linux.Fs.Bitmap.{Super, Maps, new_block}
use linux.Fs.Inodes.{Slot}
use linux.Fs.Files.Defs.{Volume, with_zone, direct_zone}
use linux.Fs.Files.Grow.{Written, nothing-Written, grown-Written}
use linux.Fs.Inodes.Content.{true-false}
use linux.Fs.Files.Held.{held, reached, IsValid, Fits, new_block-Made}

-- new_block() has no block to give.
abbrev pub NoneLeft : Super → Volume → Type 0
NoneLeft sb v = (new_block (some sb) v.maps).0 ≡ 0

-- The block of a zone, or 0.
pub record Placed (sb : Super) (v : Volume) (o : Slot) (pos : ℕ) (src : List ℕ) (z b : ℕ)
    (v' : Volume) (o' : Slot) : Type 0 where
  pub written : Written sb v o pos src 0 v' o'
  pub at : b ≢ 0 → held v' o' z ≡ b
  pub found : b ≢ 0 → reached v' o' z ≡ true
  pub stop : ((x : ℕ) → v.maps.readable x ≡ true) → b ≡ 0 → NoneLeft sb v'

abbrev pub PlacedBy : Super → Volume → Slot → ℕ → List ℕ → ℕ → ℕ × Volume × Slot → Type 0
PlacedBy sb v o pos src z (b, v', o') = Placed sb v o pos src z b v' o'

module _ (sb : Super) (pos : ℕ) (src : List ℕ) (fits : Fits sb) where
  held_direct : (v : Volume) (o : Slot) (z : ℕ) → z < 7 → held v o z ≡ get_or o.body.zones z 0
  unfolding held
  held_direct v o z low = let e : ltb z 7 ≡ true = ground arith in rw e refl

  held_with_zone :
      (v v' : Volume) (o : Slot) (z b y : ℕ)
      → 8 ≤ length o.body.zones
      → z < 7
      → v'.blocks ≡ v.blocks
      → held v' (with_zone z b o) y ≡ (if z == y then b else held v o y)
  unfolding held
  held_with_zone v v' o z b y long low same =
      let seven : get_or (set o.body.zones z b) 7 0 ≡ get_or o.body.zones 7 0 =
        get_or-set_ne o.body.zones z 7 b 0 (λ e. absurd (omega (arith, e))) in
      elim (ℕ_discrete z y) [
        | yes e ↦
            let a : z == y ≡ true = ground arith in
            let c : ltb y 7 ≡ true = ground arith in
            rw (a, c)
              (subst (λ k. get_or (set o.body.zones z b) k 0 ≡ b) e
                (get_or-set_self o.body.zones z b 0 (omega arith)))
        | no d ↦
            let a : z == y ≡ false = ground arith in
            rw (a, seven, same, get_or-set_ne o.body.zones z y b 0 d) refl
      ]

  direct_reached : (v : Volume) (o : Slot) (z : ℕ) → z < 7 → reached v o z ≡ true
  direct_reached v o z low = let e : ltb z 7 ≡ true = ground arith in rw e refl

  pub direct_zone-Placed :
      (v : Volume) (o : Slot) (z : ℕ)
      → IsValid sb v o
      → z < 7
      → PlacedBy sb v o pos src z (direct_zone (some sb) z v o)
  unfolding direct_zone
  direct_zone-Placed v o z valid low = elim (Bool-cases (get_or o.body.zones z 0 == 0)) [
    | inr there ↦ rw there (record {
      written = nothing-Written sb pos src v o valid;
      at = (λ nz. held_direct v o z low);
      found = (λ nz. direct_reached v o z low);
      stop = (λ fine e.
          let g : get_or o.body.zones z 0 == 0 ≡ true = ground (arith, e) in
          absurd (true-false g there));
    })
    | inl hole ↦ elim (new_block-Made sb v.maps fits) [
      | inl e ↦
          rw (hole, e)
            (record {
              written = nothing-Written sb pos src v o valid;
              at = (λ nz. absurd (nz refl));
              found = (λ nz. absurd (nz refl));
              stop = (λ fine z. ap (λ (r : ℕ × Maps). r.0) e);
            })
      | inr (b, m', e, made) ↦
          let small : b % 2 ^ 16 ≡ b = (let h = made.small in omega arith) in
          let given : b == 0 ≡ false = ground (arith, made.given) in
          let v' : Volume = record v { maps = m' } in
          let all : (y : ℕ) → held v' (with_zone z b o) y ≡ (if z == y then b else held v o y) =
            (λ y. held_with_zone v v' o z b y valid.long low refl) in
          let self : z == z ≡ true = ground arith in
          rw (hole, e, small, given)
            (record {
              written =
                  grown-Written sb pos src v v' o (with_zone z b o) z b valid (omega arith)
                    (held_direct v o z low
                      ∙ (let g : get_or o.body.zones z 0 ≡ 0 = ground arith in g))
                    (λ y h. all y) made (λ x d. refl)
                    (subst (λ n. 8 ≤ n) (sym (length-set o.body.zones z b)) valid.long) refl;
              at = (λ nz. all z ∙ rw self refl);
              found = (λ nz. direct_reached v' (with_zone z b o) z low);
              stop = (λ fine e. absurd (made.given e));
            })
    ]
  ]
