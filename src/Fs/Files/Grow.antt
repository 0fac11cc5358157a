-- ===== src/Fs/Files/Grow.antt =====
-- A block that is made for a hole disturbs nothing.
use linux.Base.{
  ℕ, ◌+◌, ◌*◌, ◌/◌, ◌%◌, ◌≡◌, ◌≢◌, ◌⊎◌, ◌≤◌, ◌<◌, refl, sym, ap, subst, ◌∙◌, true, false, some,
  List, ltb, ◌==◌, if◌then◌else◌, length, get_or, arith,
}
use native.Mathlib.Decide.{ℕ_discrete}
use linux.Fs.Bitmap.{Super}
use linux.Fs.Bitmap.Zones.{InUse}
use linux.Fs.Inodes.{Slot}
use linux.Fs.Files.Defs.{Volume, block_size}
use linux.Fs.Files.Reading.{byte_at}
use linux.Fs.Files.Held.{nr_zones, nr_held, held, IsValid, Made, byte_at_same}

-- The byte past the last that an inode can hold.
abbrev pub top : ℕ
top = 519 * 1024

abbrev pub max_size : ℕ → ℕ → ℕ
max_size a b = if ltb a b then b else a

-- What writing the first `r` bytes of `src` at `pos` does.
pub record Written (sb : Super) (v : Volume) (o : Slot) (pos : ℕ) (src : List ℕ) (r : ℕ)
    (v' : Volume) (o' : Slot) : Type 0 where
  pub count : r ≤ length src
  pub valid : IsValid sb v' o'
  pub reads : v'.maps.readable ≡ v.maps.readable
  pub kept : (z : ℕ) → z < nr_held → held v o z ≢ 0 → held v' o' z ≡ held v o z
  pub there : (i : ℕ) → i < r → held v' o' ((pos + i) / block_size) ≢ 0
  pub inside : (i : ℕ) → i < r → byte_at v' o' (pos + i) ≡ some (get_or src i 0)
  pub outside :
      (p : ℕ)
      → p < top
      → (p < pos) ⊎ (pos + r ≤ p)
      → held v o (p / block_size) ≢ 0
      → byte_at v' o' p ≡ byte_at v o p
  pub spared :
      (b : ℕ)
      → InUse sb v.maps b
      → ((z : ℕ) → z < nr_held → held v o z ≢ b)
      → (v'.blocks b ≡ v.blocks b) × InUse sb v'.maps b × ((z : ℕ) → z < nr_held → held v' o' z ≢ b)
  pub size : o'.body.size ≡ (if r == 0 then o.body.size else max_size o.body.size (pos + r))

module _ (sb : Super) (pos : ℕ) (src : List ℕ) where
  pub nothing-Written : (v : Volume) (o : Slot) → IsValid sb v o → Written sb v o pos src 0 v o
  nothing-Written v o valid = record {
    count = omega arith;
    valid = valid;
    reads = refl;
    kept = (λ z h there. refl);
    there = (λ i h. absurd (omega arith));
    inside = (λ i h. absurd (omega arith));
    outside = (λ p h where_at there. refl);
    spared = (λ b u apart. (refl, u, apart));
    size = refl;
  }

  -- One more block.
  pub grown-Written :
      (v v' : Volume) (o o' : Slot) (z b : ℕ)
      → IsValid sb v o
      → z < nr_zones
      → held v o z ≡ 0
      → ((y : ℕ) → y < nr_held → held v' o' y ≡ (if z == y then b else held v o y))
      → Made sb v.maps v'.maps b
      → ((x : ℕ) → held v o 519 ≢ x → v'.blocks x ≡ v.blocks x)
      → 8 ≤ length o'.body.zones
      → o'.body.size ≡ o.body.size
      → Written sb v o pos src 0 v' o'
  grown-Written v v' o o' z b valid low hole all made same long size = record {
    count = omega arith;
    valid = record {
      long = long;
      in_use = (λ y h there. elim (ℕ_discrete z y) [
        | yes e ↦ subst (λ x. InUse sb v'.maps x) (sym (at_z y h e)) made.now_used
        | no d ↦
            let g = old y h d in
            subst (λ x. InUse sb v'.maps x) (sym g)
              (made.still_used (held v o y) (valid.in_use y h (λ k. there (g ∙ k))))
      ]);
      distinct = (λ x y hx hy there same_block. elim (ℕ_discrete z x) [
        | yes e ↦ elim (ℕ_discrete z y) [
          | yes e' ↦ sym e ∙ e'
          | no d ↦ absurd (fresh y hy d (sym (at_z x hx e) ∙ same_block))
        ]
        | no d ↦ elim (ℕ_discrete z y) [
          | yes e ↦ absurd (fresh x hx d (sym (at_z y hy e) ∙ sym same_block))
          | no d' ↦
              valid.distinct x y hx hy (λ k. there (old x hx d ∙ k))
                (sym (old x hx d) ∙ same_block ∙ old y hy d')
        ]
      ]);
    };
    reads = made.same_reads;
    kept = kept;
    there = (λ i h. absurd (omega arith));
    inside = (λ i h. absurd (omega arith));
    outside = (λ p h where_at there.
        let y = p / block_size in
        let in_file : y < nr_zones = omega arith in
        byte_at_same v v' o o' p in_file there kept made.same_reads (
          ap (λ f. f (p % block_size))
            (same (held v o y) (λ e.
              let k = valid.distinct y 519 (omega arith) (omega arith) there (sym e) in
              absurd (omega (arith, k))))));
    spared = (λ x u apart. (
      same x (apart 519 (omega arith)),
      made.still_used x u,
      (λ y h. elim (ℕ_discrete z y) [
        | yes e ↦
            (λ k. made.not_in_use (subst (λ q. InUse sb v.maps q) (sym (sym (at_z y h e) ∙ k)) u))
        | no d ↦ (λ k. apart y h (sym (old y h d) ∙ k))
      ]),
    ));
    size = size;
  }
    where
      at_z : (y : ℕ) → y < nr_held → z ≡ y → held v' o' y ≡ b
      at_z y h e = let t : z == y ≡ true = ground arith in all y h ∙ rw t refl

      old : (y : ℕ) → y < nr_held → z ≢ y → held v' o' y ≡ held v o y
      old y h d = let t : z == y ≡ false = ground arith in all y h ∙ rw t refl

      kept : (y : ℕ) → y < nr_held → held v o y ≢ 0 → held v' o' y ≡ held v o y
      kept y h there = old y h (λ e. there (subst (λ k. held v o k ≡ 0) e hole))

      fresh : (y : ℕ) → y < nr_held → z ≢ y → b ≢ held v' o' y
      fresh y h d e =
          let k : b ≡ held v o y = e ∙ old y h d in
          made.not_in_use
            (subst (λ q. InUse sb v.maps q) (sym k) (valid.in_use y h (λ n. made.given (k ∙ n))))
